-- ===== src/Discovery/Resolution.antt =====
-- A model's alias leads back to the model: what discovery names, resolution finds.
use mathlib.Core.List.{Memᴰ}
use text.Mathlib.TextLemmas.{append_cancel_left}
use shepard.Base.Prefixes.{has_prefix-append}
use shepard.Base.{
  ◌≡◌, ◌≢◌, refl, sym, ap, ◌∙◌, ◌==◌, nat_eq, string_eq, String, true, false, none, some, List, [],
  ◌∷◌, ◌++◌, Map, All, arith, eq_iff, eq_refl, Bool-cases, inl, inr,
}
use shepard.Base.Text.{◌<>◌, text_lt}
use shepard.Config.Types.{ProviderConfig}
use shepard.Discovery.{
  DiscoveredModel, DiscoveryStore, Answer, Discovered, fails, models_are, found, model_of, serves,
  get, listing_ids, name_models, insert_by_alias, sort_by_alias, discover_provider, find_model,
  resolve_discovered_model, resolved_from,
}

-- The alias is the namespace and the identifier; the provider is the one that was asked.
abbrev pub IsOf : String → String → DiscoveredModel → Type 0
IsOf name prefix m = (m.alias ≡ prefix <> m.model) × (m.provider ≡ name)

pub name_models-IsOf :
    (name prefix : String) (ids : List String)
    → All (IsOf name prefix) (name_models name prefix ids)
unfolding name_models
name_models-IsOf name prefix [] = tt
name_models-IsOf name prefix (id ∷ ids) = elim (Bool-cases (id == "")) [
  | inl empty ↦ rw empty (name_models-IsOf name prefix ids)
  | inr named ↦ rw named ((refl, refl), name_models-IsOf name prefix ids)
]

insert_by_alias-All {ℓ} :
    (P : DiscoveredModel → Type ℓ) (m : DiscoveredModel) (ms : List DiscoveredModel)
    → P m
    → All P ms
    → All P (insert_by_alias m ms)
unfolding insert_by_alias
insert_by_alias-All P m [] h a = (h, tt)
insert_by_alias-All P m (first ∷ rest) h a = elim (Bool-cases (text_lt first.alias m.alias)) [
  | inl before ↦ rw before (a.0, insert_by_alias-All P m rest h a.1)
  | inr after ↦ rw after (h, a)
]

pub sort_by_alias-All {ℓ} :
    (P : DiscoveredModel → Type ℓ) (ms : List DiscoveredModel) → All P ms → All P (sort_by_alias ms)
unfolding sort_by_alias
sort_by_alias-All P [] a = tt
sort_by_alias-All P (m ∷ ms) a =
    insert_by_alias-All P m (sort_by_alias ms) a.0 (sort_by_alias-All P ms a.1)

abbrev IsFound : String → List DiscoveredModel → Type 0
IsFound alias ms = (m : DiscoveredModel) × (find_model alias ms ≡ some m)

find_model-IsFound :
    (name prefix id : String) (ids : List String)
    → Memᴰ id ids
    → id ≢ ""
    → IsFound (prefix <> id) (name_models name prefix ids)
unfolding name_models find_model
find_model-IsFound name prefix id [] m h = elim m [ ]
find_model-IsFound name prefix id (x ∷ ids) (Memᴰ.head e) h = (
  record { alias = prefix <> x; model = x; provider = name },
  ground (arith, eq_iff x "", e, eq_iff (prefix <> x) (prefix <> id)),
)
find_model-IsFound name prefix id (x ∷ ids) (Memᴰ.tail m) h =
    let (r, f) = find_model-IsFound name prefix id ids m h in
    elim (Bool-cases (x == "")) [
      | inl empty ↦ (r, rw empty f)
      | inr full ↦ elim (Bool-cases ((prefix <> x) == (prefix <> id))) [
        | inl same ↦
            (record { alias = prefix <> x; model = x; provider = name }, rw (full, same) refl)
        | inr other ↦ (r, rw (full, other) f)
      ]
    ]

insert_by_alias-IsFound_self :
    (m : DiscoveredModel) (ms : List DiscoveredModel) → IsFound m.alias (insert_by_alias m ms)
unfolding insert_by_alias find_model
insert_by_alias-IsFound_self m [] = (m, rw (eq_refl m.alias) refl)
insert_by_alias-IsFound_self m (first ∷ rest) = elim (Bool-cases (text_lt first.alias m.alias)) [
  | inr after ↦ (m, rw (after, eq_refl m.alias) refl)
  | inl before ↦
      let (r, f) = insert_by_alias-IsFound_self m rest in
      elim (Bool-cases (first.alias == m.alias)) [
        | inl same ↦ (first, rw (before, same) refl)
        | inr other ↦ (r, rw (before, other) f)
      ]
]

insert_by_alias-IsFound :
    (alias : String) (m r : DiscoveredModel) (ms : List DiscoveredModel)
    → find_model alias ms ≡ some r
    → IsFound alias (insert_by_alias m ms)
unfolding insert_by_alias find_model
insert_by_alias-IsFound alias m r [] f = absurd (ground arith)
insert_by_alias-IsFound alias m r (first ∷ rest) f =
    elim (Bool-cases (text_lt first.alias m.alias)) [
      | inl before ↦ elim (Bool-cases (first.alias == alias)) [
        | inl same ↦ (first, rw (before, same) refl)
        | inr other ↦
            let (t, g) = insert_by_alias-IsFound alias m r rest (ground arith) in
            (t, rw (before, other) g)
      ]
      | inr after ↦ elim (Bool-cases (m.alias == alias)) [
        | inl same ↦ (m, rw (after, same) refl)
        | inr other ↦ (r, rw (after, other) f)
      ]
    ]

sort_by_alias-IsFound :
    (alias : String) (ms : List DiscoveredModel)
    → IsFound alias ms
    → IsFound alias (sort_by_alias ms)
unfolding sort_by_alias find_model
sort_by_alias-IsFound alias [] (r, f) = absurd (ground arith)
sort_by_alias-IsFound alias (m ∷ ms) (r, f) = elim (Bool-cases (m.alias == alias)) [
  | inl same ↦
      rw (← (eq_iff m.alias alias).0 same) (insert_by_alias-IsFound_self m (sort_by_alias ms))
  | inr other ↦
      let (t, g) = sort_by_alias-IsFound alias ms (r, ground arith) in
      insert_by_alias-IsFound alias m t (sort_by_alias ms) g
]

find_model-All {ℓ} :
    (P : DiscoveredModel → Type ℓ) (alias : String) (ms : List DiscoveredModel)
    (r : DiscoveredModel)
    → find_model alias ms ≡ some r
    → All P ms
    → P r × (r.alias ≡ alias)
unfolding find_model
find_model-All P alias [] r f a = absurd (ground arith)
find_model-All P alias (m ∷ ms) r f a = elim (Bool-cases (m.alias == alias)) [
  | inl same ↦ let here : m ≡ r = ground arith in rw (← here) (a.0, (eq_iff m.alias alias).0 same)
  | inr other ↦ find_model-All P alias ms r (ground arith) a.1
]

-- Listed names are found, each as itself.
find_listed :
    (name prefix id : String) (ids : List String)
    → Memᴰ id ids
    → id ≢ ""
    → (m : DiscoveredModel) × (find_model
          (prefix <> id)
          (sort_by_alias (name_models name prefix ids))
        ≡ some m)
      × (m.model ≡ id)
find_listed name prefix id ids listed h =
    let (m, f) =
      sort_by_alias-IsFound (prefix <> id) (name_models name prefix ids)
        (find_model-IsFound name prefix id ids listed h) in
    let (is_of, has_alias) =
      find_model-All (IsOf name prefix) (prefix <> id) (sort_by_alias (name_models name prefix ids))
        m f
        (sort_by_alias-All (IsOf name prefix) (name_models name prefix ids)
          (name_models-IsOf name prefix ids)) in
    (m, f, append_cancel_left prefix m.model id (sym is_of.0 ∙ has_alias))

discover_provider-listed :
    (answer : Answer) (name : String) (p : ProviderConfig) (ids : List String) (s : DiscoveryStore)
    → get answer.asked name s ≡ none
    → listing_ids answer.listing ≡ (none, ids)
    → (discover_provider answer name p s).0
      ≡ models_are (sort_by_alias (name_models name p.autodiscover.prefix ids))
unfolding discover_provider
discover_provider-listed answer name p ids s fresh good = ground (arith, fresh, good)

resolved_from-models :
    (alias name : String) (ms : List DiscoveredModel) (m : DiscoveredModel)
    (d : Discovered × DiscoveryStore)
    → d.0 ≡ models_are ms
    → find_model alias ms ≡ some m
    → (resolved_from alias name d).0 ≡ found (model_of name m.model)
resolved_from-models alias name ms m (models_are ms', s) e f =
    let same : ms' ≡ ms = ground arith in rw (same, f) refl
resolved_from-models alias name ms m (fails error, s) e f = absurd (ground arith)

-- Discovery finds what it lists. If a provider discovers models, no provider before it serves the
-- alias, the store has no valid entry for it, and its answer lists the nonempty name of a model,
-- then the alias of its prefix and the name resolves to the provider and that very name, whatever
-- else is listed and in whatever order.
pub resolve_discovered_model-listed :
    (answers : String → Answer) (before after : Map ProviderConfig) (name : String)
    (p : ProviderConfig) (id : String) (ids : List String) (s : DiscoveryStore)
    → p.autodiscover.enabled ≡ true
    → All (λ e. serves (p.autodiscover.prefix <> id) e.1 ≡ false) before
    → get (answers name).asked name s ≡ none
    → listing_ids (answers name).listing ≡ (none, ids)
    → Memᴰ id ids
    → id ≢ ""
    → (resolve_discovered_model answers
        (before ++ (name, p) ∷ after)
        (p.autodiscover.prefix <> id)
        s).0
      ≡ found (model_of name id)
unfolding resolve_discovered_model
resolve_discovered_model-listed answers [] after name p id ids s on others fresh good listed h =
    let (m, f, same) = find_listed name p.autodiscover.prefix id ids listed h in
    let served : serves (p.autodiscover.prefix <> id) p ≡ true =
      rw (on, has_prefix-append p.autodiscover.prefix id) refl in
    rw served (
      resolved_from-models (p.autodiscover.prefix <> id) name _ m
        (discover_provider (answers name) name p s)
        (discover_provider-listed (answers name) name p ids s fresh good) f
      ∙ ap (λ (model : String). found (model_of name model)) same)
resolve_discovered_model-listed answers (e ∷ before) after name p id ids s on others fresh good
      listed h =
    rw others.0 (
      resolve_discovered_model-listed answers before after name p id ids s on others.1 fresh good
        listed h)
