-- ===== src/Config/ProviderAcceptance.antt =====
-- The providers that `Validate` accepts, exactly.
use shepard.Base.{
  ◌≡◌, ◌≢◌, ◌↔◌, refl, ◌⊎◌, inl, inr, String, false, Option, none, some, [], ◌∷◌, Map, lookup,
  lookup-insert, All, arith, eq_iff, string_eq,
}
use shepard.Base.Text.{◌<>◌, contains}
use shepard.Config.Types.{ProviderConfig}
use shepard.Config.Validation.{
  Parsers, validate_prefix, validate_provider, validate_providers, add_prefix, is_bad_url,
}
use shepard.Config.Entries.{IsProviderValid, AreApart, AllApart, validate_provider-IsProviderValid}
use shepard.Config.ModelAcceptance.{AreLimitsValid-validate_limits}

-- The address parses to a scheme and a host.
abbrev pub IsUrl : Option (String × String) → Type 0
IsUrl none = ⊥
IsUrl (some (scheme, host)) = (scheme ≢ "") × (host ≢ "")

is_bad_url_iff : (o : Option (String × String)) → (is_bad_url o ≡ false) ↔ IsUrl o
is_bad_url_iff none = (λ e. ground (arith, e), λ u. absurd u)
is_bad_url_iff (some (scheme, host)) = (
  (λ e.
      ((λ s. ground (arith, e, s, eq_iff scheme "")), (λ h. ground (arith, e, h, eq_iff host "")))),
  (λ (s, h). ground (arith, s, h, eq_iff scheme "", eq_iff host "")),
)

-- The name of an environment variable, and not a use of it.
abbrev pub IsVariableName : String → Type 0
IsVariableName name = (name ≡ "") ⊎ (contains name b'$' ≡ false)

-- Whether the prefix of a provider that discovers models was not seen before.
abbrev pub IsFresh : Map String → ProviderConfig → Type 0
IsFresh prefixes p =
    (p.autodiscover.enabled ≡ false) ⊎ (lookup p.autodiscover.prefix prefixes ≡ none)

module _ (parsers : Parsers) where
  -- A provider that is accepted, in all that is checked of it alone.
  pub record IsProviderAccepted (p : ProviderConfig) : Type 0 where
    pub valid : IsProviderValid p
    pub url : IsUrl (parsers.parse_url p.base_url)
    pub key_variable : IsVariableName p.api_key_env

  IsFresh-validate_prefix :
      (prefixes : Map String) (name : String) (p : ProviderConfig)
      → IsFresh prefixes p
      → validate_prefix parsers prefixes name p ≡ none
  unfolding validate_prefix
  IsFresh-validate_prefix prefixes name p (inl off) = rw off refl
  IsFresh-validate_prefix prefixes name p (inr fresh) = ground (arith, fresh)

  validate_provider-passes :
      (prefixes : Map String) (name : String) (p : ProviderConfig)
      → IsProviderAccepted p
      → IsFresh prefixes p
      → validate_provider parsers prefixes name p ≡ none
  unfolding validate_provider
  validate_provider-passes prefixes name p a f = ground (
    arith,
    (is_bad_url_iff (parsers.parse_url p.base_url)).1 a.url,
    a.key_variable,
    eq_iff p.api_key_env "",
    eq_iff p.protocol "openai",
    eq_iff p.protocol "ollama",
    a.valid.protocol,
    a.valid.timeout,
    IsFresh-validate_prefix prefixes name p f,
    AreLimitsValid-validate_limits ("provider " <> name) p.limits a.valid.limits,
  )

  validate_provider-IsProviderAccepted :
      (prefixes : Map String) (name : String) (p : ProviderConfig)
      → validate_provider parsers prefixes name p ≡ none
      → IsProviderAccepted p
  unfolding validate_provider
  validate_provider-IsProviderAccepted prefixes name p e = record {
    valid = validate_provider-IsProviderValid parsers prefixes name p e;
    url = (is_bad_url_iff (parsers.parse_url p.base_url)).0 (ground (arith, e));
    key_variable = ground (arith, e, eq_iff p.api_key_env "");
  }

  -- What was fresh stays so after a provider with another prefix.
  IsFresh-add_prefix :
      (prefixes : Map String) (name : String) (p q : ProviderConfig)
      → IsFresh prefixes q
      → AreApart p q
      → IsFresh (add_prefix parsers prefixes name p) q
  IsFresh-add_prefix prefixes name p q f a = ground (
    arith,
    f,
    a,
    eq_iff p.autodiscover.prefix q.autodiscover.prefix,
    lookup-insert p.autodiscover.prefix q.autodiscover.prefix name prefixes,
  )

  IsFresh-add_prefix_all :
      (prefixes : Map String) (name : String) (p : ProviderConfig) (ps : Map ProviderConfig)
      → All (λ e. IsFresh prefixes e.1) ps
      → All (λ e. AreApart p e.1) ps
      → All (λ e. IsFresh (add_prefix parsers prefixes name p) e.1) ps
  IsFresh-add_prefix_all prefixes name p [] f a = tt
  IsFresh-add_prefix_all prefixes name p (q ∷ ps) f a = (
    IsFresh-add_prefix prefixes name p q.1 f.0 a.0,
    IsFresh-add_prefix_all prefixes name p ps f.1 a.1,
  )

  pub validate_providers-passes :
      (prefixes : Map String) (ps : Map ProviderConfig)
      → All (λ e. IsProviderAccepted e.1) ps
      → All (λ e. IsFresh prefixes e.1) ps
      → AllApart ps
      → validate_providers parsers prefixes ps ≡ none
  unfolding validate_providers
  validate_providers-passes prefixes [] a f d = refl
  validate_providers-passes prefixes ((name, p) ∷ ps) a f d =
      rw
        (
          validate_provider-passes prefixes name p a.0 f.0,
          validate_providers-passes (add_prefix parsers prefixes name p) ps a.1
              (IsFresh-add_prefix_all prefixes name p ps f.1 d.0) d.1,
        )
        refl

  pub validate_providers-IsProviderAccepted :
      (prefixes : Map String) (ps : Map ProviderConfig)
      → validate_providers parsers prefixes ps ≡ none
      → All (λ e. IsProviderAccepted e.1) ps
  unfolding validate_providers
  validate_providers-IsProviderAccepted prefixes [] e = tt
  validate_providers-IsProviderAccepted prefixes ((name, p) ∷ ps) e = (
    validate_provider-IsProviderAccepted prefixes name p (ground (arith, e)),
    validate_providers-IsProviderAccepted (add_prefix parsers prefixes name p) ps
        (ground (arith, e)),
  )
