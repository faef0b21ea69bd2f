-- ===== src/Config/ModelAcceptance.antt =====
-- The models that `Validate` accepts, exactly.
use shepard.Base.{
  ◌≡◌, ◌≢◌, ◌↔◌, refl, ◌⊎◌, inl, inr, String, false, none, List, [], ◌∷◌, Map, All, arith, eq_iff,
  ◌==◌, string_eq, not, ◌&&◌, ◌||◌,
}
use shepard.Base.Text.{◌<>◌}
use shepard.Json.{Json}
use shepard.Config.Types.{Limits, TargetConfig, ModelConfig, ProviderConfig, resolved_targets}
use shepard.Config.Validation.{
  reject, validate_limits, validate_overrides, validate_targets, validate_model, validate_models,
  is_protected, is_empty, two_forms, no_form,
}
use shepard.Config.Entries.{
  AreLimitsValid, IsTargetValid, IsModelValid, validate_model-IsModelValid,
}

pub AreLimitsValid-validate_limits :
    (scope : String) (l : Limits) → AreLimitsValid l → validate_limits scope l ≡ none
unfolding validate_limits
AreLimitsValid-validate_limits scope l v =
    ground (arith, v.rate, v.burst, v.concurrency, v.burst_has_rate)

-- One of the two forms of a model: a provider and its model, or a list of targets.
abbrev pub IsOneForm : ModelConfig → Type 0
IsOneForm m =
    ((m.targets ≡ []) × (m.provider ≢ "") × (m.model ≢ ""))
    ⊎ ((m.targets ≢ []) × (m.provider ≡ "") × (m.model ≡ ""))

validate_overrides-passes :
    (alias : String) (overrides : Map Json)
    → All (λ e. is_protected e.0 ≡ false) overrides
    → validate_overrides alias overrides ≡ none
unfolding validate_overrides
validate_overrides-passes alias [] a = refl
validate_overrides-passes alias ((key, value) ∷ overrides) a =
    rw (a.0, validate_overrides-passes alias overrides a.1) refl

validate_targets-passes :
    (providers : Map ProviderConfig) (alias : String) (ts : List TargetConfig)
    → All (IsTargetValid providers) ts
    → validate_targets providers alias ts ≡ none
unfolding validate_targets
validate_targets-passes providers alias [] a = refl
validate_targets-passes providers alias (t ∷ ts) ((named, (p, found)), a) =
    ground (arith, found, eq_iff t.model "", validate_targets-passes providers alias ts a)

validate_model-passes :
    (providers : Map ProviderConfig) (alias : String) (m : ModelConfig)
    → IsModelValid providers alias m
    → IsOneForm m
    → validate_model providers alias m ≡ none
unfolding validate_model
validate_model-passes providers alias m v f = ground (
  arith,
  eq_iff alias "",
  eq_iff m.provider "",
  eq_iff m.model "",
  v.named,
  v.retries,
  f,
  validate_overrides-passes alias m.overrides v.overrides,
  AreLimitsValid-validate_limits ("model " <> alias) m.limits v.limits,
  validate_targets-passes providers alias (resolved_targets m) v.targets,
)

-- Which form the checks leave, by whether there are targets.
form_of :
    (alias : String) (m : ModelConfig) (ts : List TargetConfig)
    → m.targets ≡ ts
    → reject
        (not (is_empty ts) && (not (m.provider == "") || not (m.model == "")))
        (two_forms alias)
      ≡ none
    → reject (is_empty ts && (m.provider == "" || m.model == "")) (no_form alias) ≡ none
    → IsOneForm m
form_of alias m [] e f g = inl (
  e,
  (λ p. ground (arith, eq_iff m.provider "", g, p)),
  (λ p. ground (arith, eq_iff m.model "", g, p)),
)
form_of alias m (t ∷ ts) e f g = inr (
  (λ empty. ground (arith, e, empty)),
  ground (arith, eq_iff m.provider "", f),
  ground (arith, eq_iff m.model "", f),
)

validate_model-IsOneForm :
    (providers : Map ProviderConfig) (alias : String) (m : ModelConfig)
    → validate_model providers alias m ≡ none
    → IsOneForm m
unfolding validate_model
validate_model-IsOneForm providers alias m e =
    form_of alias m m.targets refl (ground arith) (ground arith)

-- A model that is accepted, in all that is checked of it.
pub record IsModelAccepted (providers : Map ProviderConfig) (alias : String) (m : ModelConfig)
    : Type 0 where
  pub valid : IsModelValid providers alias m
  pub one_form : IsOneForm m

pub validate_models_iff :
    (providers : Map ProviderConfig) (models : Map ModelConfig)
    → (validate_models providers models ≡ none)
      ↔ All (λ e. IsModelAccepted providers e.0 e.1) models
unfolding validate_models
validate_models_iff providers [] = (λ e. tt, λ a. refl)
validate_models_iff providers ((alias, m) ∷ models) = (
  (λ e. (
    record {
      valid = validate_model-IsModelValid providers alias m (ground (arith, e));
      one_form = validate_model-IsOneForm providers alias m (ground (arith, e));
    },
    (validate_models_iff providers models).0 (ground (arith, e)),
  )),
  (λ a.
      rw
        (
          validate_model-passes providers alias m a.0.valid a.0.one_form,
          (validate_models_iff providers models).1 a.1,
        )
        refl),
)
