-- ===== src/Base/Maps.antt =====
-- Go maps with string keys, as association lists. A first match counts; `erase` removes a key
-- wherever it stands, so that the laws need no condition on the list.
use Prim.Native.String.{String}
use mathlib.Core.Path.{◌≡◌, refl, ap, sym, ◌∙◌}
use mathlib.Core.Option.{Option, none, some}
use mathlib.Core.List.{List, [], ◌∷◌}
use native.Mathlib.Omega.{arith}
use text.Mathlib.TextEquality.{eq_iff}
use text.Mathlib.TextPositions.{eq_refl}
use mathlib.Core.Logic.{◌≢◌}
use shepard.Base.Tests.{◌==◌, string_eq, if◌then◌else◌}

abbrev pub Map {ℓ} : Type ℓ → Type ℓ
Map V = List (String × V)

module _ {ℓ} {V : Type ℓ} where
  unfoldable pub lookup : String → Map V → Option V
  lookup key [] = none
  lookup key ((first, value) ∷ rest) = if first == key then some value else lookup key rest

  unfoldable pub erase : String → Map V → Map V
  erase key [] = []
  erase key ((first, value) ∷ rest) =
      if first == key then erase key rest else (first, value) ∷ erase key rest

  unfoldable pub insert : String → V → Map V → Map V
  insert key new [] = (key, new) ∷ []
  insert key new ((first, value) ∷ rest) =
      if first == key then (key, new) ∷ rest else (first, value) ∷ insert key new rest

  pub lookup-insert :
      (k j : String) (v : V) (m : Map V)
      → lookup j (insert k v m) ≡ (if k == j then some v else lookup j m)
  unfolding lookup insert
  lookup-insert k j v [] = refl
  lookup-insert k j v ((first, w) ∷ m) =
      ground (lookup-insert k j v m, eq_iff first j, eq_iff first k, eq_iff k j, arith)

  pub lookup-erase :
      (k j : String) (m : Map V) → lookup j (erase k m) ≡ (if k == j then none else lookup j m)
  unfolding lookup erase
  lookup-erase k j [] = ground arith
  lookup-erase k j ((i, w) ∷ m) =
      ground (arith, eq_iff k j, eq_iff i k, eq_iff i j, lookup-erase k j m)

  pub lookup-insert_ne :
      (k j : String) (v : V) (m : Map V) → k ≢ j → lookup j (insert k v m) ≡ lookup j m
  lookup-insert_ne k j v m h = ground (arith, eq_iff k j, lookup-insert k j v m)

  pub lookup-insert_self : (k : String) (v : V) (m : Map V) → lookup k (insert k v m) ≡ some v
  lookup-insert_self k v m = ground (arith, eq_refl k, lookup-insert k k v m)

  -- An update keeps two maps equal at a key.
  pub insert_cong :
      (k j : String) (v : V) (m n : Map V)
      → lookup j m ≡ lookup j n
      → lookup j (insert k v m) ≡ lookup j (insert k v n)
  insert_cong k j v m n e =
      lookup-insert k j v m
      ∙ ap (λ (o : Option V). if k == j then some v else o) e
      ∙ sym (lookup-insert k j v n)

  pub erase_cong :
      (k j : String) (m n : Map V)
      → lookup j m ≡ lookup j n
      → lookup j (erase k m) ≡ lookup j (erase k n)
  erase_cong k j m n e =
      lookup-erase k j m
      ∙ ap (λ (o : Option V). if k == j then none else o) e
      ∙ sym (lookup-erase k j n)
