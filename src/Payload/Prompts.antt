-- ===== src/Payload/Prompts.antt =====
-- The configured prompts: which message takes them, and what stays as the client sent it.
use mathlib.Core.Option
use shepard.Base.{
  ◌↔◌, ◌≡◌, ◌≢◌, refl, inl, inr, String, false, ◌&&◌, Option, none, some, List, [], ◌∷◌, ◌++◌,
  lookup, lookup-insert_ne, arith, All, ◌==◌, string_eq, if◌then◌else◌, Option-cases, some-inj,
  Bool-cases, sym, ◌∙◌, ap,
}
use shepard.Json.{Json}
use shepard.Payload.{
  Payload, system_content, set_content, update_system, system_message, prompt_messages, join_prompt,
  apply_system_prompt, as_array,
}

-- How the list of messages changes.
pub data Prompted (prepend append : String) (messages : List Json) : List Json → Type 0 where
  -- The first system message with a text takes the prompts; nothing else changes.
  updates :
      (before : List Json) (m : Json) (after : List Json) (content : String)
      → messages ≡ before ++ m ∷ after
      → All (λ x. system_content x ≡ none) before
      → system_content m ≡ some content
      → Prompted prepend append messages
          (before ++ set_content (join_prompt (prepend ∷ content ∷ append ∷ [])) m ∷ after)
  -- Without one, a system message is put in front.
  puts_first :
      All (λ x. system_content x ≡ none) messages
      → Prompted prepend append messages
          (system_message (join_prompt (prepend ∷ "" ∷ append ∷ [])) ∷ messages)

-- What the search for a system message comes to.
data Searched (prepend append : String) (messages : List Json) : Option (List Json) → Type 0 where
  found :
      (before : List Json) (m : Json) (after : List Json) (content : String)
      → messages ≡ before ++ m ∷ after
      → All (λ x. system_content x ≡ none) before
      → system_content m ≡ some content
      → Searched prepend append messages
          (some (before ++ set_content (join_prompt (prepend ∷ content ∷ append ∷ [])) m ∷ after))
  missed : All (λ x. system_content x ≡ none) messages → Searched prepend append messages none

Searched-cons :
    {prepend append : String} {messages : List Json} {o : Option (List Json)} (m : Json)
    → system_content m ≡ none
    → Searched prepend append messages o
    → Searched prepend append (m ∷ messages) (Option.map (◌∷◌ m) o)
Searched-cons m e (found before x after content h a c) =
    found (m ∷ before) x after content (ap (◌∷◌ m) h) (e, a) c
Searched-cons m e (missed a) = missed (e, a)

update_system-Searched :
    (prepend append : String) (messages : List Json)
    → Searched prepend append messages (update_system prepend append messages)
unfolding update_system
update_system-Searched prepend append [] = missed tt
update_system-Searched prepend append (m ∷ messages) = elim (Option-cases (system_content m)) [
  | inl e ↦
      rw (e, update_system) (Searched-cons m e (update_system-Searched prepend append messages))
  | inr (content, e) ↦ rw (e, update_system) (found [] m messages content refl tt e)
]

-- The first system message with a text, if there is one, takes the prompts around its text and all
-- other messages stay; else a system message with the prompts is put in front.
pub prompt_messages-Prompted :
    (prepend append : String) (messages : List Json)
    → Prompted prepend append messages (prompt_messages prepend append messages)
unfolding prompt_messages
prompt_messages-Prompted prepend append messages =
    searched (update_system-Searched prepend append messages)
  where
    searched :
        {o : Option (List Json)}
        → Searched prepend append messages o
        → Prompted prepend append messages (elim o [
          | some updated ↦ updated
          | none ↦ system_message (join_prompt (prepend ∷ "" ∷ append ∷ [])) ∷ messages
        ])
    searched (found before m after content h a c) = updates before m after content h a c
    searched (missed a) = puts_first a

-- Where the prompts apply, only one field can change: `instructions` at the responses endpoint, and
-- `messages` elsewhere.
pub lookup-apply_system_prompt :
    (p r : Payload) (endpoint prepend append key : String)
    → apply_system_prompt p endpoint prepend append ≡ some r
    → (if endpoint == "/v1/responses" then "instructions" else "messages") ≢ key
    → lookup key r ≡ lookup key p
unfolding apply_system_prompt
lookup-apply_system_prompt p r endpoint prepend append key e h =
    elim (Bool-cases (prepend == "" && append == "")) [
      | inl unset ↦ ground arith
      | inr set ↦ elim (Bool-cases (endpoint == "/v1/responses")) [
        | inl responses ↦
            let same = λ (v : Json). lookup-insert_ne "instructions" key v p (rw responses at h) in
            ap (lookup key) (sym (some-inj (rw (set, responses) at e))) ∙ same _
        | inr chat ↦
            let (xs, _, written) = (Option.map-eq-some_iff _ _).0 (rw (set, chat) at e) in
            ap (lookup key) (sym written) ∙ lookup-insert_ne "messages" key _ p (rw chat at h)
      ]
    ]

-- The prompts are refused exactly when there is one to add, the endpoint is not the responses
-- endpoint, and `messages` is not an array.
pub apply_system_prompt-eq-none_iff :
    (p : Payload) (endpoint prepend append : String)
    → (apply_system_prompt p endpoint prepend append ≡ none) ↔ (
        ((prepend == "" && append == "") ≡ false)
        × ((endpoint == "/v1/responses") ≡ false)
        × (as_array (lookup "messages" p) ≡ none))
unfolding apply_system_prompt
apply_system_prompt-eq-none_iff p endpoint prepend append = ground arith
