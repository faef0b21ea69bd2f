-- ===== src/Discovery.antt =====
-- internal/gateway/discovery.go: the models that providers list, kept for a time.
pub mod Caching
pub mod Completeness
pub mod Members
pub mod Resolution
mod Tests
use shepard.Base.{
  ℕ, ◌+◌, ◌-◌, ◌&&◌, ◌||◌, not, ◌==◌, nat_eq, string_eq, ltb, leb, if◌then◌else◌, String, Bool,
  true, false, Option, none, some, List, [], ◌∷◌, ◌++◌, Map, lookup, insert, ℤ, pos, pos_part,
  neg_part,
}
use shepard.Base.Text.{◌<>◌, has_prefix, text_lt}
use shepard.Config.Types.{ModelConfig, ProviderConfig, provider_or_zero}

pub record DiscoveredModel : Type 0 where
  pub alias : String
  pub model : String
  pub provider : String

pub record DiscoveryEntry : Type 0 where
  pub expires : ℕ
  pub models : List DiscoveredModel

-- The map of the store; its lock makes each of `clear`, `get` and `put` one step.
abbrev pub DiscoveryStore : Type 0
DiscoveryStore = Map DiscoveryEntry

unfoldable pub new_discovery_store : DiscoveryStore
new_discovery_store = []

unfoldable pub clear : DiscoveryStore → DiscoveryStore
clear s = []

abbrev pub unexpired : ℕ → Option DiscoveryEntry → Option (List DiscoveredModel)
unexpired now none = none
unexpired now (some entry) = if ltb entry.expires now then none else some entry.models

unfoldable pub get : ℕ → String → DiscoveryStore → Option (List DiscoveredModel)
get now provider s = unexpired now (lookup provider s)

unfoldable pub put : ℕ → String → ℤ → List DiscoveredModel → DiscoveryStore → DiscoveryStore
put now provider ttl models s =
    insert provider (record { expires = now + pos_part ttl - neg_part ttl; models = models }) s

-- What comes of asking a provider for its models: no response, a body that cannot be read, or a
-- status, the body's length, and the identifiers if the body decodes.
pub data Listing : Type 0 where
  unanswered unreadable : String → Listing
  listed : ℕ → ℕ → Option (List String) → Listing

pub data DiscoveryError : Type 0 where
  request_failed : String → DiscoveryError
  too_large bad_json : DiscoveryError
  bad_status : ℕ → DiscoveryError

pub data Discovered : Type 0 where
  models_are : List DiscoveredModel → Discovered
  fails : DiscoveryError → Discovered

abbrev pub discovery_response_limit : ℕ
discovery_response_limit = 4_194_304

-- The checks of the response, in the source's order. The size is checked before the status.
unfoldable pub listing_ids : Listing → Option DiscoveryError × List String
listing_ids (unanswered error) = (some (request_failed error), [])
listing_ids (unreadable error) = (some (request_failed error), [])
listing_ids (listed status size ids) =
    if ltb discovery_response_limit size
    then (some too_large, [])
    else if ltb status 200 || leb 300 status
    then (some (bad_status status), [])
    else elim ids [ none ↦ (some bad_json, []) | some names ↦ (none, names) ]

unfoldable pub name_models : String → String → List String → List DiscoveredModel
name_models name prefix [] = []
name_models name prefix (id ∷ ids) =
    if id == ""
    then name_models name prefix ids
    else record { alias = prefix <> id; model = id; provider = name } ∷ name_models name prefix ids

-- `sort.Slice` by the alias. Where two aliases are equal, the source leaves their order open.
unfoldable pub insert_by_alias : DiscoveredModel → List DiscoveredModel → List DiscoveredModel
insert_by_alias m [] = m ∷ []
insert_by_alias m (first ∷ rest) =
    if text_lt first.alias m.alias then first ∷ insert_by_alias m rest else m ∷ first ∷ rest

unfoldable pub sort_by_alias : List DiscoveredModel → List DiscoveredModel
unfolding insert_by_alias
sort_by_alias [] = []
sort_by_alias (m ∷ ms) = insert_by_alias m (sort_by_alias ms)

-- A provider's models once its answer is in; only a success is cached.
unfoldable pub store_listing :
    ℕ
    → String
    → ProviderConfig
    → Option DiscoveryError × List String
    → DiscoveryStore
    → Discovered × DiscoveryStore
unfolding name_models sort_by_alias put
store_listing now name provider (some error, ids) s = (fails error, s)
store_listing now name provider (none, ids) s =
    let models = sort_by_alias (name_models name provider.autodiscover.prefix ids) in
    (models_are models, put now name provider.autodiscover.cache_ttl models s)

-- `asked` is the time before the request and `stored` the one after it.
pub record Answer : Type 0 where
  pub asked : ℕ
  pub stored : ℕ
  pub listing : Listing

unfoldable pub discover_provider :
    Answer → String → ProviderConfig → DiscoveryStore → Discovered × DiscoveryStore
unfolding get listing_ids store_listing
discover_provider answer name provider s = elim (get answer.asked name s) [
  | some models ↦ (models_are models, s)
  | none ↦ store_listing answer.stored name provider (listing_ids answer.listing) s
]

unfoldable pub find_model : String → List DiscoveredModel → Option DiscoveredModel
find_model alias [] = none
find_model alias (m ∷ ms) = if m.alias == alias then some m else find_model alias ms

pub data Resolved : Type 0 where
  found : ModelConfig → Resolved
  unknown : Resolved
  undiscovered : DiscoveryError → Resolved

-- The zero value of a model, with its target.
abbrev pub model_of : String → String → ModelConfig
model_of provider model = record {
  provider = provider;
  model = model;
  targets = [];
  retries = pos 0;
  limits = record { requests_per_minute = pos 0; burst = pos 0; max_concurrent = pos 0 };
  overrides = [];
  prepend_system_prompt = "";
  append_system_prompt = "";
}

abbrev pub found_or_unknown : String → Option DiscoveredModel → Resolved
found_or_unknown name none = unknown
found_or_unknown name (some m) = found (model_of name m.model)

abbrev pub resolved_from : String → String → Discovered × DiscoveryStore → Resolved × DiscoveryStore
resolved_from alias name (fails error, s) = (undiscovered error, s)
resolved_from alias name (models_are models, s) =
    (found_or_unknown name (find_model alias models), s)

abbrev pub serves : String → ProviderConfig → Bool
serves alias provider =
    provider.autodiscover.enabled && has_prefix alias provider.autodiscover.prefix

-- The first provider that serves the prefix decides, in the order of the map.
unfoldable pub resolve_discovered_model :
    (String → Answer) → Map ProviderConfig → String → DiscoveryStore → Resolved × DiscoveryStore
unfolding discover_provider find_model
resolve_discovered_model answers [] alias s = (unknown, s)
resolve_discovered_model answers ((name, provider) ∷ providers) alias s =
    if serves alias provider
    then resolved_from alias name (discover_provider (answers name) name provider s)
    else resolve_discovered_model answers providers alias s

-- `sort.Strings`.
unfoldable pub insert_name : String → List String → List String
insert_name name [] = name ∷ []
insert_name name (first ∷ rest) =
    if text_lt first name then first ∷ insert_name name rest else name ∷ first ∷ rest

unfoldable pub sort_names : List String → List String
unfolding insert_name
sort_names [] = []
sort_names (name ∷ names) = insert_name name (sort_names names)

unfoldable pub discovering : Map ProviderConfig → List String
discovering [] = []
discovering ((name, provider) ∷ providers) =
    if provider.autodiscover.enabled then name ∷ discovering providers else discovering providers

-- The models and the errors of the providers, as the loop of `discoverAll` leaves them.
pub record Survey : Type 0 where
  pub all : List DiscoveredModel
  pub errs : Map DiscoveryError
  pub store : DiscoveryStore

abbrev pub surveyed : String → Survey → Discovered × DiscoveryStore → Survey
surveyed name v (fails error, s) = record v { errs = insert name error v.errs; store = s }
surveyed name v (models_are models, s) = record v { all = v.all ++ models; store = s }

unfoldable pub survey_providers :
    (String → Answer) → Map ProviderConfig → List String → Survey → Survey
unfolding discover_provider
survey_providers answers providers [] v = v
survey_providers answers providers (name ∷ names) v = survey_providers answers providers names (
    surveyed name v
      (discover_provider (answers name) name (provider_or_zero (lookup name providers)) v.store))

unfoldable pub discover_all : (String → Answer) → Map ProviderConfig → DiscoveryStore → Survey
unfolding survey_providers sort_names discovering sort_by_alias
discover_all answers providers s =
    let v =
      survey_providers answers providers (sort_names (discovering providers))
        (record { all = []; errs = []; store = s }) in
    record v { all = sort_by_alias v.all }
