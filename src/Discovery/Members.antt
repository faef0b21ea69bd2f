-- ===== src/Discovery/Members.antt =====
-- What sorting keeps of a list: its members, and that no name occurs twice.
use mathlib.Core.List.{Memᴰ}
use shepard.Base.{
  ◌≡◌, refl, ◌==◌, string_eq, String, false, List, [], ◌∷◌, ◌++◌, All, arith, eq_iff, Bool-cases,
  inl, inr,
}
use shepard.Base.Text.{text_lt}
use shepard.Discovery.{DiscoveredModel, insert_by_alias, sort_by_alias, insert_name, sort_names}

-- No name occurs twice.
abbrev pub IsApart : String → List String → Type 0
IsApart name names = All (λ other. (other == name) ≡ false) names

abbrev pub AreDistinct : List String → Type 0
AreDistinct [] = Unit {0}
AreDistinct (name ∷ names) = IsApart name names × AreDistinct names

insert_name-All {ℓ} :
    (P : String → Type ℓ) (name : String) (names : List String)
    → P name
    → All P names
    → All P (insert_name name names)
unfolding insert_name
insert_name-All P name [] p a = (p, tt)
insert_name-All P name (first ∷ rest) p a = elim (Bool-cases (text_lt first name)) [
  | inl before ↦ rw before (a.0, insert_name-All P name rest p a.1)
  | inr after ↦ rw after (p, a)
]

insert_name-AreDistinct :
    (name : String) (names : List String)
    → IsApart name names
    → AreDistinct names
    → AreDistinct (insert_name name names)
unfolding insert_name
insert_name-AreDistinct name [] a d = (tt, tt)
insert_name-AreDistinct name (first ∷ rest) a d = elim (Bool-cases (text_lt first name)) [
  | inl before ↦ rw before (
    insert_name-All (λ other. (other == first) ≡ false) name rest
        (ground (arith, a.0, eq_iff first name, eq_iff name first)) d.0,
    insert_name-AreDistinct name rest a.1 d.1,
  )
  | inr after ↦ rw after (a, d)
]

sort_names-All {ℓ} :
    (P : String → Type ℓ) (names : List String) → All P names → All P (sort_names names)
unfolding sort_names
sort_names-All P [] a = tt
sort_names-All P (name ∷ names) a =
    insert_name-All P name (sort_names names) a.0 (sort_names-All P names a.1)

pub sort_names-AreDistinct :
    (names : List String) → AreDistinct names → AreDistinct (sort_names names)
unfolding sort_names
sort_names-AreDistinct [] d = tt
sort_names-AreDistinct (name ∷ names) d =
    insert_name-AreDistinct name (sort_names names) (sort_names-All _ names d.0)
      (sort_names-AreDistinct names d.1)

mem-insert_name_self : (name : String) (names : List String) → Memᴰ name (insert_name name names)
unfolding insert_name
mem-insert_name_self name [] = Memᴰ.head refl
mem-insert_name_self name (first ∷ rest) = elim (Bool-cases (text_lt first name)) [
  | inl before ↦ rw before (Memᴰ.tail (mem-insert_name_self name rest))
  | inr after ↦ rw after (Memᴰ.head refl)
]

mem-insert_name :
    {x : String} (name : String) (names : List String)
    → Memᴰ x names
    → Memᴰ x (insert_name name names)
unfolding insert_name
mem-insert_name name [] m = elim m [ ]
mem-insert_name name (first ∷ rest) (Memᴰ.head e) = elim (Bool-cases (text_lt first name)) [
  | inl before ↦ rw before (Memᴰ.head e)
  | inr after ↦ rw after (Memᴰ.tail (Memᴰ.head e))
]
mem-insert_name name (first ∷ rest) (Memᴰ.tail m) = elim (Bool-cases (text_lt first name)) [
  | inl before ↦ rw before (Memᴰ.tail (mem-insert_name name rest m))
  | inr after ↦ rw after (Memᴰ.tail (Memᴰ.tail m))
]

pub mem-sort_names : {x : String} (names : List String) → Memᴰ x names → Memᴰ x (sort_names names)
unfolding sort_names
mem-sort_names [] m = elim m [ ]
mem-sort_names (name ∷ names) (Memᴰ.head e) = rw e (mem-insert_name_self name (sort_names names))
mem-sort_names (name ∷ names) (Memᴰ.tail m) =
    mem-insert_name name (sort_names names) (mem-sort_names names m)

mem-insert_by_alias_self :
    (m : DiscoveredModel) (ms : List DiscoveredModel) → Memᴰ m (insert_by_alias m ms)
unfolding insert_by_alias
mem-insert_by_alias_self m [] = Memᴰ.head refl
mem-insert_by_alias_self m (first ∷ rest) = elim (Bool-cases (text_lt first.alias m.alias)) [
  | inl before ↦ rw before (Memᴰ.tail (mem-insert_by_alias_self m rest))
  | inr after ↦ rw after (Memᴰ.head refl)
]

mem-insert_by_alias :
    {x : DiscoveredModel} (m : DiscoveredModel) (ms : List DiscoveredModel)
    → Memᴰ x ms
    → Memᴰ x (insert_by_alias m ms)
unfolding insert_by_alias
mem-insert_by_alias m [] at = elim at [ ]
mem-insert_by_alias m (first ∷ rest) (Memᴰ.head e) =
    elim (Bool-cases (text_lt first.alias m.alias)) [
      | inl before ↦ rw before (Memᴰ.head e)
      | inr after ↦ rw after (Memᴰ.tail (Memᴰ.head e))
    ]
mem-insert_by_alias m (first ∷ rest) (Memᴰ.tail at) =
    elim (Bool-cases (text_lt first.alias m.alias)) [
      | inl before ↦ rw before (Memᴰ.tail (mem-insert_by_alias m rest at))
      | inr after ↦ rw after (Memᴰ.tail (Memᴰ.tail at))
    ]

pub mem-sort_by_alias :
    {x : DiscoveredModel} (ms : List DiscoveredModel) → Memᴰ x ms → Memᴰ x (sort_by_alias ms)
unfolding sort_by_alias
mem-sort_by_alias [] at = elim at [ ]
mem-sort_by_alias (m ∷ ms) (Memᴰ.head e) = rw e (mem-insert_by_alias_self m (sort_by_alias ms))
mem-sort_by_alias (m ∷ ms) (Memᴰ.tail at) =
    mem-insert_by_alias m (sort_by_alias ms) (mem-sort_by_alias ms at)

pub mem-append_left :
    {x : DiscoveredModel} (xs ys : List DiscoveredModel) → Memᴰ x xs → Memᴰ x (xs ++ ys)
mem-append_left [] ys at = elim at [ ]
mem-append_left (y ∷ xs) ys (Memᴰ.head e) = Memᴰ.head e
mem-append_left (y ∷ xs) ys (Memᴰ.tail at) = Memᴰ.tail (mem-append_left xs ys at)

pub mem-append_right :
    {x : DiscoveredModel} (xs ys : List DiscoveredModel) → Memᴰ x ys → Memᴰ x (xs ++ ys)
mem-append_right [] ys at = at
mem-append_right (y ∷ xs) ys at = Memᴰ.tail (mem-append_right xs ys at)
