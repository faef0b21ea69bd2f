-- ===== src/Catalog/Listing.antt =====
-- Every model is listed once.
use shepard.Base.{
  ℕ, ◌+◌, ◌≤◌, ◌≡◌, refl, ◌==◌, string_eq, ◌||◌, if◌then◌else◌, String, Bool, false, List, [], ◌∷◌,
  ◌++◌, Map, arith, eq_iff, Bool-cases, inl, inr,
}
use shepard.Base.Text.{text_lt}
use shepard.Config.Types.{ModelConfig}
use shepard.Discovery.{DiscoveredModel, insert_name, sort_names}
use shepard.Catalog.{ListedModel, aliases_of, is_seen, list_static, list_discovered, list_models}

abbrev pub unit_if : Bool → ℕ
unit_if b = if b then 1 else 0

-- How often a name occurs, and how often an identifier is listed.
abbrev pub count_name : String → List String → ℕ
count_name name [] = 0
count_name name (first ∷ names) = unit_if (first == name) + count_name name names

abbrev pub count_listed : String → List ListedModel → ℕ
count_listed id [] = 0
count_listed id (m ∷ ms) = unit_if (m.id == id) + count_listed id ms

abbrev pub is_discovered : String → List DiscoveredModel → Bool
is_discovered alias [] = false
is_discovered alias (m ∷ ms) = m.alias == alias || is_discovered alias ms

count_listed-append :
    (id : String) (xs ys : List ListedModel)
    → count_listed id (xs ++ ys) ≡ count_listed id xs + count_listed id ys
count_listed-append id [] ys = omega arith
count_listed-append id (x ∷ xs) ys = omega (arith, count_listed-append id xs ys)

count_listed-static :
    (id : String) (names : List String) → count_listed id (list_static names) ≡ count_name id names
unfolding list_static
count_listed-static id [] = refl
count_listed-static id (name ∷ names) = omega (arith, count_listed-static id names)

count_name-insert_name :
    (id name : String) (names : List String)
    → count_name id (insert_name name names) ≡ unit_if (name == id) + count_name id names
unfolding insert_name
count_name-insert_name id name [] = refl
count_name-insert_name id name (first ∷ names) = elim (Bool-cases (text_lt first name)) [
  | inl before ↦ rw before (omega (arith, count_name-insert_name id name names))
  | inr after ↦ rw after refl
]

count_name-sort_names :
    (id : String) (names : List String) → count_name id (sort_names names) ≡ count_name id names
unfolding sort_names
count_name-sort_names id [] = refl
count_name-sort_names id (name ∷ names) =
    omega (arith, count_name-insert_name id name (sort_names names), count_name-sort_names id names)

-- A name that is there at most once is counted as it is seen.
count_name-is_seen :
    (id : String) (names : List String)
    → count_name id names ≤ 1
    → count_name id names ≡ unit_if (is_seen id names)
count_name-is_seen id [] h = refl
count_name-is_seen id (name ∷ names) h = ground (arith, count_name-is_seen id names)

seen_of_eq : (a b : String) (seen : List String) → a ≡ b → is_seen a seen ≡ is_seen b seen
seen_of_eq a b seen e = rw e

count_listed-discovered :
    (id : String) (seen : List String) (ms : List DiscoveredModel)
    → count_listed id (list_discovered seen ms)
      ≡ (if is_seen id seen then 0 else unit_if (is_discovered id ms))
unfolding list_discovered
count_listed-discovered id seen [] = ground arith
count_listed-discovered id seen (m ∷ ms) = ground (
  arith,
  eq_iff m.alias id,
  seen_of_eq m.alias id seen,
  count_listed-discovered id seen ms,
  count_listed-discovered id (m.alias ∷ seen) ms,
)

-- If no alias is configured twice, the list of models has every identifier that is configured or
-- discovered exactly once, and no other.
pub count_listed-list_models :
    (id : String) (models : Map ModelConfig) (discovered : List DiscoveredModel)
    → count_name id (aliases_of models) ≤ 1
    → count_listed id (list_models models discovered)
      ≡ unit_if (is_seen id (aliases_of models) || is_discovered id discovered)
unfolding list_models
count_listed-list_models id models discovered once =
    let aliases : List String = aliases_of models in
    let sorted : List String = sort_names aliases in
    ground (
      arith,
      count_listed-append id (list_static sorted) (list_discovered sorted discovered),
      count_listed-static id sorted,
      count_name-sort_names id aliases,
      count_name-is_seen id aliases once,
      count_name-is_seen id sorted,
      count_listed-discovered id sorted discovered,
    )
