-- ===== src/Payload.antt =====
-- internal/gateway/gateway.go: how a request's decoded body is rewritten before it goes upstream.
-- A payload is a map; the map that Go mutates is the argument, and its new value the result.
pub mod Overrides
pub mod Compatibility
pub mod Prompts
pub mod Protected
mod Tests
use mathlib.Core.Option
use shepard.Base.{
  ℕ, String, Bool, true, false, ◌&&◌, Option, none, some, List, [], ◌∷◌, Map, lookup, insert, erase,
  ◌==◌, string_eq, not, if◌then◌else◌,
}
use shepard.Base.Text.{trim_space, join}
use shepard.Json.{
  Json, null, bool, num, str, arr, obj, items, to_items, fields, to_fields, as_string,
}

abbrev pub Payload : Type 0
Payload = Map Json

unfoldable pub apply_request_overrides : Payload → Map Json → Payload
apply_request_overrides payload [] = payload
apply_request_overrides payload ((key, value) ∷ overrides) =
    insert key value (apply_request_overrides payload overrides)

-- The copy that one target's fields are written to.
unfoldable pub clone_payload : Payload → Payload
clone_payload [] = []
clone_payload ((key, value) ∷ payload) = insert key value (clone_payload payload)

-- The value that Ollama's thinking options come to: a type switch over `any`.
unfoldable pub reasoning_effort : Json → Option Json
reasoning_effort (bool true) = some (str "medium")
reasoning_effort (bool false) = some (str "none")
reasoning_effort (str s) = some (str s)
reasoning_effort _ = none

abbrev pub set_some : String → Option Json → Payload → Payload
set_some key none p = p
set_some key (some v) p = insert key v p

abbrev pub set_missing : String → Option Json → Payload → Payload
set_missing key value p = elim (lookup key p) [ none ↦ set_some key value p | some _ ↦ p ]

-- `thinking` or `think` moves to `reasoning_effort`, unless the client gave one.
unfoldable pub move_thinking : String → Payload → Payload
unfolding reasoning_effort
move_thinking key p = elim (lookup key p) [
  | none ↦ p
  | some value ↦ erase key (set_missing "reasoning_effort" (reasoning_effort value) p)
]

unfoldable pub move_max_tokens : Payload → Payload
move_max_tokens p = elim (lookup "max_tokens" p) [
  | none ↦ p
  | some value ↦ erase "max_tokens" (set_missing "max_output_tokens" (some value) p)
]

unfoldable pub apply_provider_compatibility : Payload → String → String → Payload
unfolding move_thinking move_max_tokens
apply_provider_compatibility p endpoint protocol =
    let adapted =
      if protocol == "ollama" then move_thinking "think" (move_thinking "thinking" p) else p in
    if endpoint == "/v1/responses" then move_max_tokens adapted else adapted

unfoldable pub nonempty : List String → List String
nonempty [] = []
nonempty (p ∷ parts) = if trim_space p == "" then nonempty parts else p ∷ nonempty parts

unfoldable pub join_prompt : List String → String
unfolding nonempty
join_prompt parts = join (nonempty parts) "\n\n"

-- `message["role"] != "system"` compares an `any` with a text.
unfoldable pub is_system : Map Json → Bool
is_system message = elim (as_string (lookup "role" message)) [
  | none ↦ false
  | some r ↦ r == "system"
]

unfoldable pub system_content : Json → Option String
unfolding is_system
system_content (obj fs) =
    if is_system (fields fs) then as_string (lookup "content" (fields fs)) else none
system_content _ = none

abbrev pub set_content : String → Json → Json
set_content text (obj fs) = obj (to_fields (insert "content" (str text) (fields fs)))
set_content text v = v

-- The loop over the messages: the first system message with a textual content takes the prompts.
unfoldable pub update_system : String → String → List Json → Option (List Json)
unfolding system_content join_prompt
update_system prepend append [] = none
update_system prepend append (m ∷ messages) = elim (system_content m) [
  | some content ↦ some (set_content (join_prompt (prepend ∷ content ∷ append ∷ [])) m ∷ messages)
  | none ↦ Option.map (◌∷◌ m) (update_system prepend append messages)
]

abbrev pub or_empty : Option String → String
or_empty none = ""
or_empty (some s) = s

abbrev pub as_array : Option Json → Option (List Json)
as_array (some (arr xs)) = some (items xs)
as_array _ = none

unfoldable pub system_message : String → Json
system_message prompt = obj (to_fields (("role", str "system") ∷ ("content", str prompt) ∷ []))

unfoldable pub prompt_messages : String → String → List Json → List Json
unfolding update_system system_message join_prompt
prompt_messages prepend append messages = elim (update_system prepend append messages) [
  | some updated ↦ updated
  | none ↦ system_message (join_prompt (prepend ∷ "" ∷ append ∷ [])) ∷ messages
]

-- `none` is the error "messages must be an array".
unfoldable pub apply_system_prompt : Payload → String → String → String → Option Payload
unfolding prompt_messages join_prompt
apply_system_prompt payload endpoint prepend append =
    if prepend == "" && append == ""
    then some payload
    else if endpoint == "/v1/responses"
    then some (
        insert "instructions"
          (str (
            join_prompt
              (prepend ∷ or_empty (as_string (lookup "instructions" payload)) ∷ append ∷ [])))
          payload)
    else Option.map
        (λ messages.
          insert "messages" (arr (to_items (prompt_messages prepend append messages))) payload)
        (as_array (lookup "messages" payload))
