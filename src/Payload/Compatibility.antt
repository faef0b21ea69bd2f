-- ===== src/Payload/Compatibility.antt =====
-- The provider adapters: Ollama's thinking options, and the Responses API's token limit.
use shepard.Base.{
  String, true, false, ◌≡◌, refl, Option, none, some, lookup, lookup-insert, lookup-erase, arith,
  eq_iff, ◌==◌, string_eq, if◌then◌else◌, Option-cases, Bool-cases, inl, inr, sym, ap,
}
use shepard.Json.{Json}
use shepard.Payload.{
  Payload, reasoning_effort, set_missing, move_thinking, move_max_tokens,
  apply_provider_compatibility,
}
use shepard.Payload.Overrides.{or_else}

lookup-eq : (k j : String) (p : Payload) → (k == j) ≡ true → lookup j p ≡ lookup k p
lookup-eq k j p e = ap (λ (x : String). lookup x p) (sym ((eq_iff k j).0 e))

lookup-set_missing :
    (key j : String) (o : Option Json) (p : Payload)
    → lookup j (set_missing key o p) ≡ (if key == j then or_else (lookup key p) o else lookup j p)
lookup-set_missing key j none p = ground (arith, lookup-eq key j p)
lookup-set_missing key j (some v) p = ground (arith, lookup-eq key j p, lookup-insert key j v p)

abbrev effort_of : Option Json → Option Json
effort_of none = none
effort_of (some v) = reasoning_effort v

lookup-move_thinking :
    (key j : String) (p : Payload)
    → (key == "reasoning_effort") ≡ false
    → lookup j (move_thinking key p) ≡ (
        if key == j
        then none
        else if "reasoning_effort" == j
        then or_else (lookup "reasoning_effort" p) (effort_of (lookup key p))
        else lookup j p)
unfolding move_thinking
lookup-move_thinking key j p h = elim (Option-cases (lookup key p)) [
  | inl e ↦ ground (arith, lookup-eq key j p, lookup-eq "reasoning_effort" j p)
  | inr (v, e) ↦ ground (
    arith,
    lookup-erase key j (set_missing "reasoning_effort" (reasoning_effort v) p),
    lookup-set_missing "reasoning_effort" j (reasoning_effort v) p,
  )
]

lookup-move_max_tokens :
    (j : String) (p : Payload)
    → lookup j (move_max_tokens p) ≡ (
        if "max_tokens" == j
        then none
        else if "max_output_tokens" == j
        then or_else (lookup "max_output_tokens" p) (lookup "max_tokens" p)
        else lookup j p)
unfolding move_max_tokens
lookup-move_max_tokens j p = elim (Option-cases (lookup "max_tokens" p)) [
  | inl e ↦ ground (arith, lookup-eq "max_tokens" j p, lookup-eq "max_output_tokens" j p)
  | inr (v, e) ↦ ground (
    arith,
    lookup-erase "max_tokens" j (set_missing "max_output_tokens" (some v) p),
    lookup-set_missing "max_output_tokens" j (some v) p,
  )
]

-- What an Ollama provider receives at each key of a chat request.
abbrev pub ollama_field : Payload → String → Option Json
ollama_field p j =
    if "think" == j
    then none
    else if "reasoning_effort" == j
    then or_else (lookup "reasoning_effort" p)
        (or_else (effort_of (lookup "thinking" p)) (effort_of (lookup "think" p)))
    else if "thinking" == j
    then none
    else lookup j p

-- What the Responses API receives, over the fields of the adapted request.
abbrev pub responses_field : (String → Option Json) → String → Option Json
responses_field field_of j =
    if "max_tokens" == j
    then none
    else if "max_output_tokens" == j
    then or_else (field_of "max_output_tokens") (field_of "max_tokens")
    else field_of j

or_else_assoc : (a b c : Option Json) → or_else (or_else a b) c ≡ or_else a (or_else b c)
or_else_assoc none b c = refl
or_else_assoc (some v) b c = refl

lookup-ollama :
    (p : Payload) (j : String)
    → lookup j (move_thinking "think" (move_thinking "thinking" p)) ≡ ollama_field p j
lookup-ollama p j = ground (
  arith,
  lookup-move_thinking "think" j (move_thinking "thinking" p) refl,
  lookup-move_thinking "thinking" j p refl,
  lookup-move_thinking "thinking" "reasoning_effort" p refl,
  lookup-move_thinking "thinking" "think" p refl,
  or_else_assoc (lookup "reasoning_effort" p) (effort_of (lookup "thinking" p))
      (effort_of (lookup "think" p)),
)

-- The adapted request, key by key, is what the two adapters say, the protocol's first and then the
-- endpoint's.
pub lookup-apply_provider_compatibility :
    (p : Payload) (endpoint protocol key : String)
    → let adapted : String → Option Json =
        if protocol == "ollama" then ollama_field p else λ k. lookup k p in
      lookup key (apply_provider_compatibility p endpoint protocol)
      ≡ (if endpoint == "/v1/responses" then responses_field adapted key else adapted key)
unfolding apply_provider_compatibility
lookup-apply_provider_compatibility p endpoint protocol key =
    elim (Bool-cases (protocol == "ollama")) [
      | inl ollama ↦ rw ollama (
          finish (move_thinking "think" (move_thinking "thinking" p)) (ollama_field p)
            (lookup-ollama p))
      | inr other ↦ rw other (finish p (λ k. lookup k p) (λ j. refl))
    ]
  where
    finish :
        (q : Payload) (field_of : String → Option Json)
        → ((j : String) → lookup j q ≡ field_of j)
        → lookup key (if endpoint == "/v1/responses" then move_max_tokens q else q)
          ≡ (if endpoint == "/v1/responses" then responses_field field_of key else field_of key)
    finish q field_of h =
        ground (arith, lookup-move_max_tokens key q, h key, h "max_tokens", h "max_output_tokens")
