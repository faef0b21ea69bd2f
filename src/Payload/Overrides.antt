-- ===== src/Payload/Overrides.antt =====
-- Overrides win over the client's fields; a copy is the same map.
use shepard.Base.{
  String, ◌≡◌, refl, Option, none, some, [], ◌∷◌, Map, lookup, lookup-insert, arith, string_eq,
}
use shepard.Json.{Json}
use shepard.Payload.{Payload, apply_request_overrides, clone_payload}

abbrev pub or_else : Option Json → Option Json → Option Json
or_else none o = o
or_else (some v) o = some v

-- After the overrides, each key holds its override if it has one, and else what the client sent.
pub lookup-apply_request_overrides :
    (key : String) (payload : Payload) (overrides : Map Json)
    → lookup key (apply_request_overrides payload overrides)
      ≡ or_else (lookup key overrides) (lookup key payload)
unfolding apply_request_overrides lookup
lookup-apply_request_overrides key payload [] = refl
lookup-apply_request_overrides key payload ((k, v) ∷ overrides) = ground (
  arith,
  lookup-insert k key v (apply_request_overrides payload overrides),
  lookup-apply_request_overrides key payload overrides,
)

pub lookup-clone_payload :
    (key : String) (payload : Payload) → lookup key (clone_payload payload) ≡ lookup key payload
unfolding clone_payload lookup
lookup-clone_payload key [] = refl
lookup-clone_payload key ((k, v) ∷ payload) =
    ground (arith, lookup-insert k key v (clone_payload payload), lookup-clone_payload key payload)
