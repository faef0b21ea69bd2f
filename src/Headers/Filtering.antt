-- ===== src/Headers/Filtering.antt =====
-- What crosses the gateway and what the log shows, header by header.
use mathlib.Core.Option
use mathlib.Core.List.{append_assoc, append-nil}
use shepard.Base.{
  String, false, ◌≡◌, refl, List, [], ◌∷◌, ◌++◌, Map, lookup, insert, erase, lookup-insert,
  insert_cong, erase_cong, arith, eq_iff, eq_refl, ◌==◌, string_eq, if◌then◌else◌, Bool-cases, inl,
  inr, sym, ◌∙◌,
}
use shepard.Base.Text.{join, ◌<>◌}
use shepard.Config.Types.{ProviderConfig}
use shepard.Headers.{
  Header, is_in, sensitive_headers, forwarded_request_headers, values_or_none, add, add_values,
  copy_headers, copy_request_headers, set_all, apply_provider_headers, upstream_headers,
  logged_headers,
}

abbrev pub values : String → Header → List String
values name h = values_or_none (lookup name h)

-- The values that a header lists under a name, over all of its entries.
abbrev pub all_values : String → Header → List String
all_values name [] = []
all_values name ((n, vs) ∷ h) = (if n == name then vs else []) ++ all_values name h

values-add :
    (name key : String) (v : String) (h : Header)
    → values key (add h name v) ≡ values key h ++ (if name == key then v ∷ [] else [])
unfolding add
values-add name key v h = elim (Bool-cases (name == key)) [
  | inl same ↦ rw ((eq_iff name key).0 same, lookup-insert, eq_refl) refl
  | inr other ↦ rw (lookup-insert, other, append-nil) refl
]

values-add_values :
    (name key : String) (vs : List String) (h : Header)
    → values key (add_values h name vs) ≡ values key h ++ (if name == key then vs else [])
unfolding add_values
values-add_values name key [] h = elim (Bool-cases (name == key)) [
  | inl same ↦ rw (same, append-nil) refl
  | inr other ↦ rw (other, append-nil) refl
]
values-add_values name key (v ∷ vs) h =
    values-add_values name key vs (add h name v) ∙ elim (Bool-cases (name == key)) [
      | inl same ↦ rw (values-add, same, append_assoc) refl
      | inr other ↦ rw (values-add, other, append-nil) refl
    ]

values-copy_step :
    (allowed : List String) (key name : String) (vs : List String) (dst : Header)
    → values key (if is_in name allowed then add_values dst name vs else dst)
      ≡ values key dst ++ (if is_in key allowed then (if name == key then vs else []) else [])
values-copy_step allowed key name vs dst = elim (Bool-cases (name == key)) [
  | inl same ↦ elim (Bool-cases (is_in key allowed)) [
    | inl listed ↦ rw ((eq_iff name key).0 same, listed, values-add_values) refl
    | inr hidden ↦ rw ((eq_iff name key).0 same, hidden, append-nil) refl
  ]
  | inr other ↦ elim (Bool-cases (is_in name allowed)) [
    | inl listed ↦ rw (listed, values-add_values, other, append-nil) nothing
    | inr hidden ↦ rw (hidden, other) nothing
  ]
]
  where
    nothing : values key dst ≡ values key dst ++ (if is_in key allowed then [] else [])
    nothing = elim (Bool-cases (is_in key allowed)) [
      | inl listed ↦ rw (listed, append-nil) refl
      | inr hidden ↦ rw (hidden, append-nil) refl
    ]

-- A copied header has what it had, and what the source lists under the name if the name is allowed.
pub values-copy_headers :
    (allowed : List String) (key : String) (dst src : Header)
    → values key (copy_headers allowed dst src)
      ≡ values key dst ++ (if is_in key allowed then all_values key src else [])
unfolding copy_headers
values-copy_headers allowed key dst [] = elim (Bool-cases (is_in key allowed)) [
  | inl listed ↦ rw (listed, append-nil) refl
  | inr hidden ↦ rw (hidden, append-nil) refl
]
values-copy_headers allowed key dst ((name, vs) ∷ src) =
    values-copy_headers allowed key (if is_in name allowed then add_values dst name vs else dst) src
    ∙ rw (values-copy_step allowed key name vs dst) (elim (Bool-cases (is_in key allowed)) [
      | inl listed ↦ rw (listed, append_assoc) refl
      | inr hidden ↦ rw (hidden, append-nil) refl
    ])

-- The log shows a header under its name exactly when the request has it: as redacted if the name is
-- sensitive, and else as its values joined.
pub lookup-logged_headers :
    (key : String) (h : Header)
    → lookup key (logged_headers h)
      ≡ Option.map
          (λ vs. if is_in key sensitive_headers then "[REDACTED]" else join vs ", ")
          (lookup key h)
unfolding logged_headers lookup
lookup-logged_headers key [] = refl
lookup-logged_headers key ((name, vs) ∷ h) = elim (Bool-cases (name == key)) [
  | inl same ↦ rw ((eq_iff name key).0 same, lookup-insert, eq_refl) refl
  | inr other ↦ rw (lookup-insert, other) (lookup-logged_headers key h)
]

lookup-add_values :
    (name key : String) (vs : List String) (h : Header)
    → (name == key) ≡ false
    → lookup key (add_values h name vs) ≡ lookup key h
unfolding add_values add
lookup-add_values name key [] h e = refl
lookup-add_values name key (v ∷ vs) h e =
    lookup-add_values name key vs (add h name v) e ∙ rw (lookup-insert, e) refl

lookup-copy_step :
    (allowed : List String) (key name : String) (vs : List String) (dst : Header)
    → is_in key allowed ≡ false
    → lookup key (if is_in name allowed then add_values dst name vs else dst) ≡ lookup key dst
lookup-copy_step allowed key name vs dst e = elim (Bool-cases (name == key)) [
  | inl same ↦ rw ((eq_iff name key).0 same, e) refl
  | inr other ↦ ground (arith, lookup-add_values name key vs dst other)
]

-- A header that is not allowed is not copied.
lookup-copy_headers :
    (allowed : List String) (key : String) (dst src : Header)
    → is_in key allowed ≡ false
    → lookup key (copy_headers allowed dst src) ≡ lookup key dst
unfolding copy_headers
lookup-copy_headers allowed key dst [] e = refl
lookup-copy_headers allowed key dst ((name, vs) ∷ src) e =
    lookup-copy_headers allowed key (if is_in name allowed then add_values dst name vs else dst) src
      e
    ∙ lookup-copy_step allowed key name vs dst e

module _ (canonical getenv : String → String) (provider : ProviderConfig) where
  lookup-set_all :
      (key : String) (g h : Header) (headers : Map String)
      → lookup key g ≡ lookup key h
      → lookup key (set_all canonical g headers) ≡ lookup key (set_all canonical h headers)
  unfolding set_all
  lookup-set_all key g h [] e = e
  lookup-set_all key g h ((name, value) ∷ headers) e =
      lookup-set_all key (insert (canonical name) (value ∷ []) g)
        (insert (canonical name) (value ∷ []) h) headers
        (insert_cong (canonical name) key (value ∷ []) g h e)

  -- What a provider receives under a name that is not forwarded does not depend on the client: two
  -- requests give the same, also where the provider's headers are refused.
  pub upstream_headers_independent :
      (key : String) (incoming other : Header)
      → is_in key forwarded_request_headers ≡ false
      → Option.map (lookup key) (upstream_headers canonical getenv incoming provider)
        ≡ Option.map (lookup key) (upstream_headers canonical getenv other provider)
  unfolding upstream_headers apply_provider_headers copy_request_headers
  upstream_headers_independent key incoming other e = ground (
    arith,
    lookup-set_all key (insert "Authorization" token base) (insert "Authorization" token base')
        provider.headers keyed,
    lookup-set_all key (erase "Authorization" base) (erase "Authorization" base') provider.headers
        keyless,
  )
    where
      token : List String
      token = ("Bearer " <> getenv provider.api_key_env) ∷ []

      base : Header
      base =
          insert "Content-Type" ("application/json" ∷ [])
            (copy_headers forwarded_request_headers [] incoming)

      base' : Header
      base' =
          insert "Content-Type" ("application/json" ∷ [])
            (copy_headers forwarded_request_headers [] other)

      same : lookup key base ≡ lookup key base'
      same = insert_cong "Content-Type" key ("application/json" ∷ []) _ _ (
          lookup-copy_headers forwarded_request_headers key [] incoming e
          ∙ sym (lookup-copy_headers forwarded_request_headers key [] other e))

      keyed :
          lookup key (insert "Authorization" token base)
          ≡ lookup key (insert "Authorization" token base')
      keyed = insert_cong "Authorization" key token base base' same

      keyless : lookup key (erase "Authorization" base) ≡ lookup key (erase "Authorization" base')
      keyless = erase_cong "Authorization" key base base' same
