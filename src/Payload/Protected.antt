-- ===== src/Payload/Protected.antt =====
-- A validated configuration and the rewriting of requests: a model's overrides leave alone the
-- fields that decide what is asked of which model.
use shepard.Base.{
  ◌≡◌, refl, String, true, false, none, some, [], ◌∷◌, Map, lookup, All, arith, eq_iff, ◌==◌,
  string_eq, some-inj, Bool-cases, inl, inr,
}
use shepard.Json.{Json}
use shepard.Config.Types.{ModelConfig, Config}
use shepard.Config.Validation.{Parsers, validate, is_protected}
use shepard.Config.Entries.{IsModelValid}
use shepard.Config.Validity.{validate-IsValid}
use shepard.Payload.{Payload, apply_request_overrides}
use shepard.Payload.Overrides.{lookup-apply_request_overrides}

All-lookup {ℓ κ} :
    {V : Type ℓ} (P : String → V → Type κ) (key : String) (v : V) (m : Map V)
    → All (λ e. P e.0 e.1) m
    → lookup key m ≡ some v
    → P key v
unfolding lookup
All-lookup P key v [] a f = absurd (ground arith)
All-lookup P key v ((k, w) ∷ m) a f = elim (Bool-cases (k == key)) [
  | inl same ↦
      let here : k ≡ key = ground (arith, eq_iff k key) in
      let value : w ≡ v = some-inj (ground arith) in rw (← here, ← value) a.0
  | inr differ ↦ All-lookup P key v m a.1 (ground arith)
]

lookup-protected :
    (key : String) (overrides : Map Json)
    → All (λ e. is_protected e.0 ≡ false) overrides
    → is_protected key ≡ true
    → lookup key overrides ≡ none
unfolding lookup
lookup-protected key [] a h = refl
lookup-protected key ((k, v) ∷ overrides) a h =
    ground (arith, eq_iff k key, lookup-protected key overrides a.1 h)

-- Under a configuration that passes `Validate`, a configured model's overrides leave the request's
-- `model`, `messages`, `input` and `instructions` as they were.
pub overrides_leave_protected :
    (parsers : Parsers) (c : Config) (alias : String) (m : ModelConfig) (payload : Payload)
    (key : String)
    → validate parsers c ≡ none
    → lookup alias c.models ≡ some m
    → is_protected key ≡ true
    → lookup key (apply_request_overrides payload m.overrides) ≡ lookup key payload
overrides_leave_protected parsers c alias m payload key passes found h =
    let valid : IsModelValid c.providers alias m =
      All-lookup (IsModelValid c.providers) alias m c.models
        (validate-IsValid parsers c passes).models found in
    rw
      (
        lookup-apply_request_overrides key payload m.overrides,
        lookup-protected key m.overrides valid.overrides h,
      )
      refl
