-- ===== src/Config/Tests.antt =====
-- The validation at a small configuration.
use shepard.Base.{string_eq, lookup, insert, ◌≡◌, ◌↔◌, refl, none, some, [], ◌∷◌, Map}
use shepard.Config.Samples.{model_with, config_with, lenient}
use shepard.Config.Types.{resolved_targets}
use shepard.Config.Validation.{validate, protected_override, same_prefix}
use shepard.Config.Acceptance.{IsAccepted, validate_iff}
use shepard.Base.Text.{trim_space, contains}
use shepard.Json.{Json}
use shepard.Payload.{apply_request_overrides}
use shepard.Payload.Protected.{overrides_leave_protected}

shared_prefix_fails :
    validate lenient (config_with "near/" []) ≡ some (same_prefix "near" "far" "near/")
unfolding validate resolved_targets lookup insert trim_space contains
shared_prefix_fails = refl

protected_override_fails :
    validate lenient (config_with "far/" (("input", Json.null) ∷ []))
    ≡ some (protected_override "chat" "input")
unfolding validate resolved_targets lookup insert trim_space contains
protected_override_fails = refl

validate_iff_example :
    (validate lenient (config_with "far/" []) ≡ none) ↔ IsAccepted lenient (config_with "far/" [])
validate_iff_example = validate_iff lenient (config_with "far/" [])

abbrev tuned : Map Json
tuned = ("temperature", Json.num "0") ∷ []

tuned_passes : validate lenient (config_with "far/" tuned) ≡ none
unfolding validate resolved_targets lookup insert trim_space contains
tuned_passes = refl

tuned_is_found : lookup "chat" (config_with "far/" tuned).models ≡ some (model_with tuned)
unfolding lookup
tuned_is_found = refl

overrides_leave_protected_example :
    lookup "input" (apply_request_overrides (("input", Json.str "hello") ∷ []) tuned)
    ≡ lookup "input" (("input", Json.str "hello") ∷ [])
overrides_leave_protected_example =
    overrides_leave_protected lenient (config_with "far/" tuned) "chat" (model_with tuned)
      (("input", Json.str "hello") ∷ []) "input" tuned_passes tuned_is_found refl
