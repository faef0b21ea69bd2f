-- ===== src/Config/Entries.antt =====
-- What the providers and the models of a configuration that passes `Validate` guarantee.
use shepard.Base.{
  ◌≤◌, ◌≡◌, ◌≢◌, refl, ◌⊎◌, inl, inr, String, true, false, none, some, List, [], ◌∷◌, Map, lookup,
  lookup-insert, lookup-insert_self, is_pos, pos_part, neg_part, All, arith, eq_iff, ◌==◌,
  string_eq, Option-cases, Bool-cases,
}
use shepard.Base.Text.{◌<>◌}
use shepard.Json.{Json}
use shepard.Config.Types.{Limits, TargetConfig, ModelConfig, ProviderConfig, resolved_targets}
use shepard.Config.Validation.{
  Parsers, validate_limits, validate_overrides, validate_targets, validate_model, validate_models,
  validate_provider, validate_providers, is_protected, add_prefix,
}

-- No negative number, and no burst without a rate.
pub record AreLimitsValid (l : Limits) : Type 0 where
  pub rate : neg_part l.requests_per_minute ≡ 0
  pub burst : neg_part l.burst ≡ 0
  pub concurrency : neg_part l.max_concurrent ≡ 0
  pub burst_has_rate : (is_pos l.requests_per_minute ≡ true) ⊎ (pos_part l.burst ≡ 0)

pub validate_limits-AreLimitsValid :
    (scope : String) (l : Limits) → validate_limits scope l ≡ none → AreLimitsValid l
unfolding validate_limits
validate_limits-AreLimitsValid scope l e = ground arith

abbrev pub IsTargetValid : Map ProviderConfig → TargetConfig → Type 0
IsTargetValid providers t =
    (t.model ≢ "") × ((p : ProviderConfig) × (lookup t.provider providers ≡ some p))

-- A model has a name, known providers, at most ten retries, and no override of a structural field.
pub record IsModelValid (providers : Map ProviderConfig) (alias : String) (m : ModelConfig)
    : Type 0 where
  pub named : alias ≢ ""
  pub retries : (neg_part m.retries ≡ 0) × (pos_part m.retries ≤ 10)
  pub overrides : All (λ e. is_protected e.0 ≡ false) m.overrides
  pub targets : All (IsTargetValid providers) (resolved_targets m)
  pub limits : AreLimitsValid m.limits

validate_overrides-All :
    (alias : String) (overrides : Map Json)
    → validate_overrides alias overrides ≡ none
    → All (λ e. is_protected e.0 ≡ false) overrides
unfolding validate_overrides
validate_overrides-All alias [] e = tt
validate_overrides-All alias ((key, value) ∷ overrides) e =
    (ground arith, validate_overrides-All alias overrides (ground arith))

validate_targets-All :
    (providers : Map ProviderConfig) (alias : String) (ts : List TargetConfig)
    → validate_targets providers alias ts ≡ none
    → All (IsTargetValid providers) ts
unfolding validate_targets
validate_targets-All providers alias [] e = tt
validate_targets-All providers alias (t ∷ ts) e =
    elim (Option-cases (lookup t.provider providers)) [
      | inl missing ↦ absurd (ground arith)
      | inr (p, found) ↦ (
        (ground (arith, eq_iff t.model ""), (p, found)),
        validate_targets-All providers alias ts (ground arith),
      )
    ]

pub validate_model-IsModelValid :
    (providers : Map ProviderConfig) (alias : String) (m : ModelConfig)
    → validate_model providers alias m ≡ none
    → IsModelValid providers alias m
unfolding validate_model
validate_model-IsModelValid providers alias m e = record {
  named = ground (arith, eq_iff alias "");
  retries = ground arith;
  overrides = validate_overrides-All alias m.overrides (ground arith);
  targets = validate_targets-All providers alias (resolved_targets m) (ground arith);
  limits = validate_limits-AreLimitsValid ("model " <> alias) m.limits (ground arith);
}

pub validate_models-All :
    (providers : Map ProviderConfig) (models : Map ModelConfig)
    → validate_models providers models ≡ none
    → All (λ e. IsModelValid providers e.0 e.1) models
unfolding validate_models
validate_models-All providers [] e = tt
validate_models-All providers ((alias, m) ∷ models) e = (
  validate_model-IsModelValid providers alias m (ground arith),
  validate_models-All providers models (ground arith),
)

-- A provider has valid limits, a known protocol and no negative timeout.
pub record IsProviderValid (p : ProviderConfig) : Type 0 where
  pub limits : AreLimitsValid p.limits
  pub protocol : (p.protocol ≡ "openai") ⊎ (p.protocol ≡ "ollama")
  pub timeout : neg_part p.request_timeout ≡ 0

-- Two providers do not discover models under one prefix.
abbrev pub AreApart : ProviderConfig → ProviderConfig → Type 0
AreApart p q =
    (p.autodiscover.enabled ≡ false)
    ⊎ ((q.autodiscover.enabled ≡ false) ⊎ (p.autodiscover.prefix ≢ q.autodiscover.prefix))

abbrev pub AllApart : Map ProviderConfig → Type 0
AllApart [] = Unit
AllApart ((name, p) ∷ ps) = All (λ e. AreApart p e.1) ps × AllApart ps

module _ (parsers : Parsers) where
  pub validate_provider-IsProviderValid :
      (prefixes : Map String) (name : String) (p : ProviderConfig)
      → validate_provider parsers prefixes name p ≡ none
      → IsProviderValid p
  unfolding validate_provider
  validate_provider-IsProviderValid prefixes name p e = record {
    limits = validate_limits-AreLimitsValid ("provider " <> name) p.limits (ground arith);
    protocol = ground (arith, eq_iff p.protocol "openai", eq_iff p.protocol "ollama");
    timeout = ground arith;
  }

  pub validate_providers-All :
      (prefixes : Map String) (ps : Map ProviderConfig)
      → validate_providers parsers prefixes ps ≡ none
      → All (λ e. IsProviderValid e.1) ps
  unfolding validate_providers
  validate_providers-All prefixes [] e = tt
  validate_providers-All prefixes ((name, p) ∷ ps) e = (
    validate_provider-IsProviderValid prefixes name p (ground arith),
    validate_providers-All (add_prefix parsers prefixes name p) ps (ground arith),
  )

  pub prefix_is_fresh :
      (prefixes : Map String) (name : String) (p : ProviderConfig)
      → validate_provider parsers prefixes name p ≡ none
      → p.autodiscover.enabled ≡ true
      → lookup p.autodiscover.prefix prefixes ≡ none
  unfolding validate_provider
  prefix_is_fresh prefixes name p e on =
      elim (Option-cases (lookup p.autodiscover.prefix prefixes)) [
        | inl free ↦ free
        | inr (other, used) ↦ absurd (ground arith)
      ]

  add_prefix-keeps :
      (key : String) (prefixes : Map String) (name : String) (q : ProviderConfig) (other : String)
      → lookup key prefixes ≡ some other
      → (o : String) × (lookup key (add_prefix parsers prefixes name q) ≡ some o)
  add_prefix-keeps key prefixes name q other f = elim (Bool-cases q.autodiscover.enabled) [
    | inr off ↦ (other, ground arith)
    | inl on ↦ elim (Bool-cases (q.autodiscover.prefix == key)) [
      | inl same ↦ (name, rw (on, lookup-insert, same) refl)
      | inr differ ↦ (other, rw (on, lookup-insert, differ) f)
    ]
  ]

  add_prefix-adds :
      (prefixes : Map String) (name : String) (p : ProviderConfig)
      → p.autodiscover.enabled ≡ true
      → lookup p.autodiscover.prefix (add_prefix parsers prefixes name p) ≡ some name
  add_prefix-adds prefixes name p on =
      rw on (lookup-insert_self p.autodiscover.prefix name prefixes)

  seen-AreApart :
      (prefixes : Map String) (name : String) (p q : ProviderConfig) (other : String)
      → validate_provider parsers prefixes name q ≡ none
      → lookup p.autodiscover.prefix prefixes ≡ some other
      → AreApart p q
  seen-AreApart prefixes name p q other e f = elim (Bool-cases q.autodiscover.enabled) [
    | inr off ↦ inr (inl off)
    | inl on ↦ inr (
        inr λ same.
          let free : lookup q.autodiscover.prefix prefixes ≡ none =
            prefix_is_fresh prefixes name q e on in
          let used : lookup q.autodiscover.prefix prefixes ≡ some other = rw (← same) f in cc)
  ]

  -- A prefix that was seen is not seen again.
  seen-All :
      (prefixes : Map String) (ps : Map ProviderConfig) (p : ProviderConfig) (other : String)
      → validate_providers parsers prefixes ps ≡ none
      → lookup p.autodiscover.prefix prefixes ≡ some other
      → All (λ e. AreApart p e.1) ps
  unfolding validate_providers
  seen-All prefixes [] p other e f = tt
  seen-All prefixes ((name, q) ∷ ps) p other e f =
      let (o, g) = add_prefix-keeps p.autodiscover.prefix prefixes name q other f in
      (
        seen-AreApart prefixes name p q other (ground arith) f,
        seen-All (add_prefix parsers prefixes name q) ps p o (ground arith) g,
      )

  off-All :
      (p : ProviderConfig) (ps : Map ProviderConfig)
      → p.autodiscover.enabled ≡ false
      → All (λ e. AreApart p e.1) ps
  off-All p [] off = tt
  off-All p (q ∷ ps) off = (inl off, off-All p ps off)

  pub validate_providers-AllApart :
      (prefixes : Map String) (ps : Map ProviderConfig)
      → validate_providers parsers prefixes ps ≡ none
      → AllApart ps
  unfolding validate_providers
  validate_providers-AllApart prefixes [] e = tt
  validate_providers-AllApart prefixes ((name, p) ∷ ps) e = (
    elim (Bool-cases p.autodiscover.enabled) [
      | inr off ↦ off-All p ps off
      | inl on ↦
          seen-All (add_prefix parsers prefixes name p) ps p name (ground arith)
            (add_prefix-adds prefixes name p on)
    ],
    validate_providers-AllApart (add_prefix parsers prefixes name p) ps (ground arith),
  )
