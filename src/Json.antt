-- ===== src/Json.antt =====
-- Decoded JSON, Go's `any` after `json.Unmarshal`: the values that request payloads and the
-- configuration's overrides hold.
use shepard.Base.{String, Bool, Map, List, [], ◌∷◌, Option, none, some}

-- A number keeps its literal: the code never computes with one.
mutual
  pub data Json : Type 0 where
    null : Json
    bool : Bool → Json
    num str : String → Json
    arr : Items → Json
    obj : Fields → Json

  pub data Items : Type 0 where
    nil : Items
    cons : Json → Items → Items

  pub data Fields : Type 0 where
    end : Fields
    field : String → Json → Fields → Fields

-- The array and the object as Go's slice and map.
abbrev pub items : Items → List Json
items nil = []
items (cons v vs) = v ∷ items vs

abbrev pub to_items : List Json → Items
to_items [] = nil
to_items (v ∷ vs) = cons v (to_items vs)

abbrev pub fields : Fields → Map Json
fields end = []
fields (field k v fs) = (k, v) ∷ fields fs

abbrev pub to_fields : Map Json → Fields
to_fields [] = end
to_fields ((k, v) ∷ m) = field k v (to_fields m)

-- The type assertion `v.(string)` on a map's entry: nothing on a missing key or another type.
abbrev pub as_string : Option Json → Option String
as_string (some (str s)) = some s
as_string _ = none
