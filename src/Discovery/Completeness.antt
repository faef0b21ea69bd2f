-- ===== src/Discovery/Completeness.antt =====
-- What a survey of all providers finds: a provider that fails hides no other.
use mathlib.Core.List.{Memᴰ}
use shepard.Base.{
  ℕ, ◌≡◌, refl, ap, subst, ◌∙◌, ◌==◌, string_eq, String, false, Option, none, some, List, [], ◌∷◌,
  ◌++◌, Map, lookup, lookup-insert, lookup-insert_self, All, arith, eq_iff, Option-cases, inl, inr,
}
use shepard.Config.Types.{ProviderConfig, provider_or_zero}
use shepard.Discovery.{
  DiscoveredModel, DiscoveryStore, DiscoveryError, Answer, Discovered, models_are, fails, get, put,
  listing_ids, store_listing, discover_provider, sort_by_alias, sort_names, discovering, Survey,
  surveyed, survey_providers, discover_all,
}
use shepard.Discovery.Members.{
  IsApart, AreDistinct, sort_names-AreDistinct, mem-sort_names, mem-sort_by_alias, mem-append_left,
  mem-append_right,
}

-- What a provider answers depends on its own entry alone, and changes no other.
store_listing-same :
    (now : ℕ) (name : String) (p : ProviderConfig) (l : Option DiscoveryError × List String)
    (s t : DiscoveryStore)
    → (store_listing now name p l s).0 ≡ (store_listing now name p l t).0
unfolding store_listing
store_listing-same now name p (some error, ids) s t = refl
store_listing-same now name p (none, ids) s t = refl

get-same :
    (now : ℕ) (name : String) (s t : DiscoveryStore)
    → lookup name s ≡ lookup name t
    → get now name s ≡ get now name t
unfolding get
get-same now name s t e = rw e refl

discover_provider-same :
    (answer : Answer) (name : String) (p : ProviderConfig) (s t : DiscoveryStore)
    → lookup name s ≡ lookup name t
    → (discover_provider answer name p s).0 ≡ (discover_provider answer name p t).0
unfolding discover_provider
discover_provider-same answer name p s t e = elim (Option-cases (get answer.asked name t)) [
  | inl fresh ↦
      rw (get-same answer.asked name s t e ∙ fresh, fresh, discover_provider)
        (store_listing-same answer.stored name p (listing_ids answer.listing) s t)
  | inr (ms, hit) ↦ rw (get-same answer.asked name s t e ∙ hit, hit, discover_provider) refl
]

store_listing-other :
    (now : ℕ) (name other : String) (p : ProviderConfig) (l : Option DiscoveryError × List String)
    (s : DiscoveryStore)
    → (name == other) ≡ false
    → lookup other (store_listing now name p l s).1 ≡ lookup other s
unfolding store_listing put
store_listing-other now name other p (some error, ids) s e = refl
store_listing-other now name other p (none, ids) s e = rw (lookup-insert, e) refl

discover_provider-other :
    (answer : Answer) (name other : String) (p : ProviderConfig) (s : DiscoveryStore)
    → (name == other) ≡ false
    → lookup other (discover_provider answer name p s).1 ≡ lookup other s
unfolding discover_provider
discover_provider-other answer name other p s e = elim (Option-cases (get answer.asked name s)) [
  | inl fresh ↦
      rw (fresh, discover_provider)
        (store_listing-other answer.stored name other p (listing_ids answer.listing) s e)
  | inr (ms, hit) ↦ rw (hit, discover_provider) refl
]

-- One provider's result is in the survey.
abbrev pub Covers : Survey → String → Discovered → Type 0
Covers v name (fails error) = lookup name v.errs ≡ some error
Covers v name (models_are ms) = All (λ m. Memᴰ m v.all) ms

mem-All :
    (ms zs : List DiscoveredModel)
    → ((m : DiscoveredModel) → Memᴰ m ms → Memᴰ m zs)
    → All (λ m. Memᴰ m zs) ms
mem-All [] zs h = tt
mem-All (m ∷ ms) zs h = (h m (Memᴰ.head refl), mem-All ms zs (λ x at. h x (Memᴰ.tail at)))

surveyed-Covers :
    (name : String) (v : Survey) (d : Discovered × DiscoveryStore)
    → Covers (surveyed name v d) name d.0
surveyed-Covers name v (fails error, s) = lookup-insert_self name error v.errs
surveyed-Covers name v (models_are ms, s) =
    mem-All ms (v.all ++ ms) (λ m at. mem-append_right v.all ms at)

-- The survey only grows, and later names leave an earlier one's error.
All-grow :
    (ms xs ys : List DiscoveredModel) → All (λ m. Memᴰ m xs) ms → All (λ m. Memᴰ m (xs ++ ys)) ms
All-grow [] xs ys a = tt
All-grow (m ∷ ms) xs ys a = (mem-append_left xs ys a.0, All-grow ms xs ys a.1)

surveyed-keeps :
    (name other : String) (v : Survey) (result : Discovered) (d : Discovered × DiscoveryStore)
    → (other == name) ≡ false
    → Covers v name result
    → Covers (surveyed other v d) name result
surveyed-keeps name other v (fails e) (fails error, s) n c = rw (lookup-insert, n) c
surveyed-keeps name other v (fails e) (models_are ms, s) n c = c
surveyed-keeps name other v (models_are ms) (fails error, s) n c = c
surveyed-keeps name other v (models_are ms) (models_are new, s) n c = All-grow ms v.all new c

module _ (answers : String → Answer) (providers : Map ProviderConfig) where
  abbrev pub result_of : String → DiscoveryStore → Discovered × DiscoveryStore
  result_of name = discover_provider (answers name) name (provider_or_zero (lookup name providers))

  survey_providers-keeps :
      (name : String) (names : List String) (v : Survey) (result : Discovered)
      → IsApart name names
      → Covers v name result
      → Covers (survey_providers answers providers names v) name result
  unfolding survey_providers
  survey_providers-keeps name [] v result a c = c
  survey_providers-keeps name (other ∷ names) v result a c =
      survey_providers-keeps name names (surveyed other v (result_of other v.store)) result a.1
        (surveyed-keeps name other v result (result_of other v.store) a.0 c)

  store-surveyed :
      (name : String) (v : Survey) (d : Discovered × DiscoveryStore)
      → (surveyed name v d).store ≡ d.1
  store-surveyed name v (fails error, s) = refl
  store-surveyed name v (models_are ms, s) = refl

  at_name :
      {name : String} (names : List String)
      → Memᴰ name names
      → (other : String) → IsApart other names
      → (name == other) ≡ false
  at_name [] m other a = elim m [ ]
  at_name (first ∷ names) (Memᴰ.head e) other a = rw e a.0
  at_name (first ∷ names) (Memᴰ.tail m) other a = at_name names m other a.1

  survey_providers-Covers :
      {name : String} (names : List String) (v : Survey)
      → AreDistinct names
      → Memᴰ name names
      → Covers (survey_providers answers providers names v) name (result_of name v.store).0
  unfolding survey_providers
  survey_providers-Covers [] v d m = elim m [ ]
  survey_providers-Covers {name} (first ∷ names) v d (Memᴰ.head e) = rw e (
      survey_providers-keeps first names (surveyed first v (result_of first v.store))
        (result_of first v.store).0 d.0 (surveyed-Covers first v (result_of first v.store)))
  survey_providers-Covers {name} (first ∷ names) v d (Memᴰ.tail m) =
      let v' : Survey = surveyed first v (result_of first v.store) in
      let other : (first == name) ≡ false =
        ground (arith, at_name names m first d.0, eq_iff name first, eq_iff first name) in
      let same : lookup name v'.store ≡ lookup name v.store =
        ap (lookup name) (store-surveyed first v (result_of first v.store))
        ∙ discover_provider-other (answers first) first name
            (provider_or_zero (lookup first providers)) v.store other in
      subst (Covers (survey_providers answers providers names v') name)
        (discover_provider-same (answers name) name (provider_or_zero (lookup name providers))
          v'.store v.store same)
        (survey_providers-Covers names v' d.1 m)

  Covers-sort :
      (v : Survey) (name : String) (result : Discovered)
      → Covers v name result
      → Covers (record v { all = sort_by_alias v.all }) name result
  Covers-sort v name (fails error) c = c
  Covers-sort v name (models_are ms) c = sorted ms c
    where
      sorted :
          (ms : List DiscoveredModel)
          → All (λ m. Memᴰ m v.all) ms
          → All (λ m. Memᴰ m (sort_by_alias v.all)) ms
      sorted [] a = tt
      sorted (m ∷ ms) a = (mem-sort_by_alias v.all a.0, sorted ms a.1)

  -- No provider hides another. If no discovering provider is configured twice, then what each of
  -- them answers is in the survey of all: its error under its name, or every one of its models
  -- among the sorted models, whatever the others answer and whether or not they are cached.
  pub discover_all-Covers :
      {name : String} (s : DiscoveryStore)
      → AreDistinct (discovering providers)
      → Memᴰ name (discovering providers)
      → Covers (discover_all answers providers s) name (result_of name s).0
  unfolding discover_all
  discover_all-Covers {name} s d m =
      Covers-sort
        (survey_providers answers providers (sort_names (discovering providers))
          (record { all = []; errs = []; store = s }))
        name (result_of name s).0
        (survey_providers-Covers (sort_names (discovering providers))
          (record { all = []; errs = []; store = s })
          (sort_names-AreDistinct (discovering providers) d)
          (mem-sort_names (discovering providers) m))
