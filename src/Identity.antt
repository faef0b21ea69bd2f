-- ===== src/Identity.antt =====
-- internal/gateway/limiter.go (clientIdentity) and gateway.go (authorized): who a client is, by its
-- bearer key or its address.
pub mod Keys
mod Tests
use shepard.Base.{
  ◌==◌, string_eq, ◌&&◌, ◌||◌, if◌then◌else◌, String, Bool, true, false, Option, none, some, List,
  [], ◌∷◌, lookup,
}
use shepard.Base.Text.{◌<>◌, has_prefix, trim_prefix, trim_space}
use shepard.Headers.{Header}
use shepard.Acl.{Net, ClientAcl, forwarded_client_ip}

-- What the gateway reads of an `http.Request` besides its body.
pub record Request : Type 0 where
  pub method : String
  pub path : String
  pub remote_addr : String
  pub host : String
  pub tls : Bool
  pub header : Header

abbrev pub first_or_empty : Option (List String) → String
first_or_empty none = ""
first_or_empty (some []) = ""
first_or_empty (some (v ∷ vs)) = v

-- `Header.Get`, at a name in its canonical spelling.
unfoldable pub header_get : String → Header → String
header_get name h = first_or_empty (lookup name h)

abbrev pub is_any : String → List String → Bool
is_any given [] = false
is_any given (expected ∷ keys) = given == expected || is_any given keys

abbrev pub bearer_of : String → String
bearer_of auth = trim_space (trim_prefix auth "Bearer ")

unfoldable pub authorized : Request → List String → Bool
unfolding header_get
authorized r [] = true
authorized r (key ∷ keys) =
    has_prefix (header_get "Authorization" r.header) "Bearer "
    && is_any (bearer_of (header_get "Authorization" r.header)) (key ∷ keys)

-- `digest` is the hexadecimal start of a text's SHA-256.
module _ (net : Net) (digest : String → String) where
  unfoldable pub fingerprint_identity : String → String → String
  fingerprint_identity kind value = kind <> ":" <> digest value

  abbrev pub address_identity : String → Option net.Ip → String
  address_identity remote_addr none = fingerprint_identity "ip" remote_addr
  address_identity remote_addr (some ip) = fingerprint_identity "ip" (net.show_ip ip)

  unfoldable pub client_identity : Request → Option (ClientAcl net) → String
  unfolding header_get fingerprint_identity
  client_identity r trusted =
      let auth = header_get "Authorization" r.header in
      if auth == ""
      then address_identity r.remote_addr
          (forwarded_client_ip net r.remote_addr (header_get "X-Forwarded-For" r.header) trusted)
      else fingerprint_identity "key" auth
