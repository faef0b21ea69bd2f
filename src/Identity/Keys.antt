-- ===== src/Identity/Keys.antt =====
-- Which requests carry a key.
use mathlib.Core.List.{Memᴰ}
use shepard.Base.{
  ◌≡◌, ◌↔◌, refl, ap, ◌∙◌, ◌⊎◌, inl, inr, ◌==◌, string_eq, ◌&&◌, String, true, List, [], ◌∷◌, arith,
  eq_iff, eq_refl, Bool-cases,
}
use shepard.Base.Text.{◌<>◌, has_prefix, trim_space}
use shepard.Base.Prefixes.{has_prefix-append, trim_prefix-append, has_prefix-split}
use shepard.Identity.{Request, header_get, authorized, is_any, bearer_of}

is_any-mem : (given : String) (keys : List String) → is_any given keys ≡ true → Memᴰ given keys
is_any-mem given [] h = absurd (ground arith)
is_any-mem given (key ∷ keys) h = elim (Bool-cases (given == key)) [
  | inl same ↦ Memᴰ.head ((eq_iff given key).0 same)
  | inr other ↦ Memᴰ.tail (is_any-mem given keys (ground arith))
]

mem-is_any : {given : String} {keys : List String} → Memᴰ given keys → is_any given keys ≡ true
mem-is_any {given} (Memᴰ.head e) = rw (← e, eq_refl given) refl
mem-is_any (Memᴰ.tail m) = ground (arith, mem-is_any m)

-- What a request has to send, if keys are configured.
abbrev pub CarriesKey : Request → List String → Type 0
CarriesKey r keys =
    (rest : String) × (header_get "Authorization" r.header ≡ "Bearer " <> rest)
    × Memᴰ (trim_space rest) keys

carries :
    (auth : String) (keys : List String)
    → (has_prefix auth "Bearer " && is_any (bearer_of auth) keys) ≡ true
    → (rest : String) × (auth ≡ "Bearer " <> rest) × Memᴰ (trim_space rest) keys
carries auth keys h =
    let (rest, e) = has_prefix-split auth "Bearer " (ground arith) in
    let given : bearer_of auth ≡ trim_space rest =
      ap bearer_of e ∙ ap trim_space (trim_prefix-append "Bearer " rest) in
    (rest, e, rw (← given) (is_any-mem (bearer_of auth) keys (ground arith)))

carried :
    (auth rest : String) (keys : List String)
    → auth ≡ "Bearer " <> rest
    → Memᴰ (trim_space rest) keys
    → (has_prefix auth "Bearer " && is_any (bearer_of auth) keys) ≡ true
carried auth rest keys e m =
    let starts : has_prefix auth "Bearer " ≡ true = rw e (has_prefix-append "Bearer " rest) in
    let given : bearer_of auth ≡ trim_space rest =
      ap bearer_of e ∙ ap trim_space (trim_prefix-append "Bearer " rest) in
    rw (starts, given) (mem-is_any m)

-- A request is authorized exactly when no key is configured or it carries one that is.
pub authorized_iff :
    (r : Request) (keys : List String)
    → (authorized r keys ≡ true) ↔ ((keys ≡ []) ⊎ CarriesKey r keys)
unfolding authorized
authorized_iff r [] = ((λ h. inl refl), (λ h. refl))
authorized_iff r (key ∷ keys) = (
  (λ h. inr (carries (header_get "Authorization" r.header) (key ∷ keys) h)),
  (λ h. elim h [
    | inl e ↦ absurd (ground (arith, e))
    | inr (rest, e, m) ↦ carried (header_get "Authorization" r.header) rest (key ∷ keys) e m
  ]),
)
