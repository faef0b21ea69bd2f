-- ===== src/Identity/Tests.antt =====
-- Bearer keys, as they are compared and as they are counted.
use shepard.Base.{◌≡◌, refl, string_eq, String, true, false, none, [], ◌∷◌, lookup}
use shepard.Base.Text.{has_prefix, trim_prefix, drop_prefix, trim_space}
use shepard.Acl.{Net}
use shepard.Identity.{Request, authorized, header_get, fingerprint_identity, client_identity}

abbrev sent : String → Request
sent auth = record {
  method = "POST";
  path = "/v1/responses";
  remote_addr = "10.0.0.1";
  host = "gateway";
  tls = true;
  header = ("Authorization", auth ∷ []) ∷ [];
}

key_accepted : authorized (sent "Bearer alpha") ("beta" ∷ "alpha" ∷ []) ≡ true
unfolding authorized header_get has_prefix trim_prefix drop_prefix trim_space lookup
key_accepted = refl

key_refused : authorized (sent "Basic alpha") ("beta" ∷ "alpha" ∷ []) ≡ false
unfolding authorized header_get has_prefix trim_prefix drop_prefix trim_space lookup
key_refused = refl

spaced_key_accepted : authorized (sent "Bearer   alpha") ("alpha" ∷ []) ≡ true
unfolding authorized header_get has_prefix trim_prefix drop_prefix trim_space lookup
spaced_key_accepted = refl

-- The two spellings of one key are two identities.
spaced_key_identity :
    (net : Net) → client_identity net (λ s. s) (sent "Bearer   alpha") none ≡ "key:Bearer   alpha"
unfolding client_identity header_get fingerprint_identity lookup
spaced_key_identity net = refl

key_identity :
    (net : Net) → client_identity net (λ s. s) (sent "Bearer alpha") none ≡ "key:Bearer alpha"
unfolding client_identity header_get fingerprint_identity lookup
key_identity net = refl
