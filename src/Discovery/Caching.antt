-- ===== src/Discovery/Caching.antt =====
-- What one discovery leaves in the store.
use shepard.Base.{
  ℕ, ◌≢◌, [], ◌∷◌, arith, eq_iff, Bool-cases, ◌∙◌, ◌+◌, ◌-◌, ◌≡◌, refl, ◌==◌, string_eq,
  if◌then◌else◌, String, Option, none, some, List, lookup, insert, lookup-insert, All, pos_part,
  neg_part, Option-cases, inl, inr,
}
use shepard.Base.Text.{text_lt}
use shepard.Config.Types.{ProviderConfig}
use shepard.Discovery.{
  DiscoveredModel, DiscoveryEntry, DiscoveryStore, DiscoveryError, Answer, Discovered, models_are,
  fails, get, put, listing_ids, name_models, insert_by_alias, sort_by_alias, store_listing,
  discover_provider,
}
use shepard.Discovery.Resolution.{IsOf, name_models-IsOf, sort_by_alias-All}

-- The entry that a success leaves, for as long as the time to live says.
abbrev pub entry_of : Answer → ProviderConfig → List DiscoveredModel → DiscoveryEntry
entry_of answer p ms = record {
  expires = answer.stored + pos_part p.autodiscover.cache_ttl - neg_part p.autodiscover.cache_ttl;
  models = ms;
}

-- How often a name is among the identifiers that a provider lists, and among models.
abbrev pub times_listed : String → List String → ℕ
times_listed name [] = 0
times_listed name (id ∷ ids) = (if id == name then 1 else 0) + times_listed name ids

abbrev pub times_named : String → List DiscoveredModel → ℕ
times_named name [] = 0
times_named name (m ∷ ms) = (if m.model == name then 1 else 0) + times_named name ms

-- The models of the identifiers: each under its provider's prefix, every identifier that is not empty
-- as often as it is listed, and the empty one never.
pub record AreListed (name prefix : String) (ids : List String) (ms : List DiscoveredModel)
    : Type 0 where
  pub named : All (IsOf name prefix) ms
  pub every : (id : String) → id ≢ "" → times_named id ms ≡ times_listed id ids
  pub no_empty : times_named "" ms ≡ 0

times_named-insert_by_alias :
    (id : String) (m : DiscoveredModel) (ms : List DiscoveredModel)
    → times_named id (insert_by_alias m ms) ≡ times_named id (m ∷ ms)
unfolding insert_by_alias
times_named-insert_by_alias id m [] = refl
times_named-insert_by_alias id m (first ∷ ms) = elim (Bool-cases (text_lt first.alias m.alias)) [
  | inl before ↦ rw before (omega (arith, times_named-insert_by_alias id m ms))
  | inr after ↦ rw after refl
]

times_named-sort_by_alias :
    (id : String) (ms : List DiscoveredModel)
    → times_named id (sort_by_alias ms) ≡ times_named id ms
unfolding sort_by_alias
times_named-sort_by_alias id [] = refl
times_named-sort_by_alias id (m ∷ ms) =
    omega
      (arith, times_named-insert_by_alias id m (sort_by_alias ms), times_named-sort_by_alias id ms)

times_named-name_models :
    (name prefix id : String) (ids : List String)
    → id ≢ ""
    → times_named id (name_models name prefix ids) ≡ times_listed id ids
unfolding name_models
times_named-name_models name prefix id [] n = refl
times_named-name_models name prefix id (first ∷ ids) n =
    ground
      (arith, n, eq_iff first "", eq_iff first id, times_named-name_models name prefix id ids n)

times_named-empty :
    (name prefix : String) (ids : List String) → times_named "" (name_models name prefix ids) ≡ 0
unfolding name_models
times_named-empty name prefix [] = refl
times_named-empty name prefix (first ∷ ids) = ground (arith, times_named-empty name prefix ids)

sort_by_alias-AreListed :
    (name prefix : String) (ids : List String)
    → AreListed name prefix ids (sort_by_alias (name_models name prefix ids))
sort_by_alias-AreListed name prefix ids = record {
  named =
      sort_by_alias-All (IsOf name prefix) (name_models name prefix ids)
        (name_models-IsOf name prefix ids);
  every = λ id n.
      times_named-sort_by_alias id (name_models name prefix ids)
      ∙ times_named-name_models name prefix id ids n;
  no_empty =
      times_named-sort_by_alias "" (name_models name prefix ids)
      ∙ times_named-empty name prefix ids;
}

pub data Outcome (answer : Answer) (name : String) (p : ProviderConfig) (s : DiscoveryStore)
    : Discovered × DiscoveryStore → Type 0 where
  cached :
      (ms : List DiscoveredModel)
      → get answer.asked name s ≡ some ms
      → Outcome answer name p s (models_are ms, s)
  failed :
      (error : DiscoveryError) (ids : List String)
      → get answer.asked name s ≡ none
      → listing_ids answer.listing ≡ (some error, ids)
      → Outcome answer name p s (fails error, s)
  fetched :
      (ms : List DiscoveredModel) (ids : List String) (s' : DiscoveryStore)
      → get answer.asked name s ≡ none
      → listing_ids answer.listing ≡ (none, ids)
      → AreListed name p.autodiscover.prefix ids ms
      → ((other : String)
          → lookup other s'
            ≡ (if name == other then some (entry_of answer p ms) else lookup other s))
      → Outcome answer name p s (models_are ms, s')

store_listing-Outcome :
    (answer : Answer) (name : String) (p : ProviderConfig) (s : DiscoveryStore)
    (l : Option DiscoveryError × List String)
    → get answer.asked name s ≡ none
    → listing_ids answer.listing ≡ l
    → Outcome answer name p s (store_listing answer.stored name p l s)
unfolding store_listing put
store_listing-Outcome answer name p s (some error, ids) fresh e = failed error ids fresh e
store_listing-Outcome answer name p s (none, ids) fresh e =
    let ms = sort_by_alias (name_models name p.autodiscover.prefix ids) in
    fetched ms ids (insert name (entry_of answer p ms) s) fresh e
      (sort_by_alias-AreListed name p.autodiscover.prefix ids)
      (λ other. lookup-insert name other (entry_of answer p ms) s)

-- One discovery is one of three: an unexpired entry is used and the store is as it was; the answer
-- is an error and the store is as it was, so that the next request asks again; or the models are
-- exactly the identifiers of the listing that are not empty, each as often as it is listed and
-- under its provider's prefix, and only the provider's entry is replaced, by these models and for
-- as long as its time to live says.
pub discover_provider-Outcome :
    (answer : Answer) (name : String) (p : ProviderConfig) (s : DiscoveryStore)
    → Outcome answer name p s (discover_provider answer name p s)
unfolding discover_provider
discover_provider-Outcome answer name p s = elim (Option-cases (get answer.asked name s)) [
  | inl fresh ↦
      rw (fresh, discover_provider)
        (store_listing-Outcome answer name p s (listing_ids answer.listing) fresh refl)
  | inr (ms, hit) ↦ rw (hit, discover_provider) (cached ms hit)
]
