-- ===== src/Payload/Tests.antt =====
-- Runs of the rewriting of payloads, and its theorems at small inputs.
use shepard.Base.{
  ◌≡◌, ◌↔◌, refl, String, false, ◌&&◌, none, some, [], ◌∷◌, lookup, insert, erase, ◌==◌, string_eq,
}
use shepard.Base.Text.{join, trim_space}
use shepard.Json.{Json, bool, num, str, obj, to_fields}
use shepard.Payload.{
  Payload, apply_provider_compatibility, join_prompt, apply_system_prompt, prompt_messages,
  as_array,
}
use shepard.Payload.Compatibility.{
  ollama_field, responses_field, lookup-apply_provider_compatibility,
}
use shepard.Payload.Prompts.{Prompted, prompt_messages-Prompted, apply_system_prompt-eq-none_iff}

abbrev request : Payload
request = ("model", str "coding") ∷ ("think", bool false) ∷ ("max_tokens", num "100") ∷ []

adapted :
    apply_provider_compatibility request "/v1/responses" "ollama"
    ≡ ("model", str "coding")
      ∷ ("reasoning_effort", str "none")
      ∷ ("max_output_tokens", num "100")
      ∷ []
unfolding apply_provider_compatibility lookup insert erase
adapted = refl

joined : join_prompt ("first" ∷ " \t" ∷ "last" ∷ []) ≡ "first\n\nlast"
unfolding join_prompt join trim_space
joined = refl

lookup-apply_provider_compatibility_example :
    lookup "reasoning_effort" (apply_provider_compatibility request "/v1/responses" "ollama")
    ≡ responses_field (ollama_field request) "reasoning_effort"
lookup-apply_provider_compatibility_example =
    lookup-apply_provider_compatibility request "/v1/responses" "ollama" "reasoning_effort"

abbrev hello : Json
hello = obj (to_fields (("role", str "user") ∷ ("content", str "hello") ∷ []))

prompt_messages-Prompted_example :
    Prompted "be brief" "" (hello ∷ []) (prompt_messages "be brief" "" (hello ∷ []))
prompt_messages-Prompted_example = prompt_messages-Prompted "be brief" "" (hello ∷ [])

abbrev instructed : Payload
instructed = insert "instructions" (str "be brief") request

with_instructions : apply_system_prompt request "/v1/responses" "be brief" "" ≡ some instructed
unfolding apply_system_prompt lookup insert join trim_space
with_instructions = refl

apply_system_prompt-eq-none_iff_example :
    (apply_system_prompt request "/v1/chat/completions" "be brief" "" ≡ none) ↔ (
      ((◌==◌ {T = String} "be brief" "" && ◌==◌ {T = String} "" "") ≡ false)
      × (◌==◌ {T = String} "/v1/chat/completions" "/v1/responses" ≡ false)
      × (as_array (lookup "messages" request) ≡ none))
apply_system_prompt-eq-none_iff_example =
    apply_system_prompt-eq-none_iff request "/v1/chat/completions" "be brief" ""
