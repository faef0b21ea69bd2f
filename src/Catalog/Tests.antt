-- ===== src/Catalog/Tests.antt =====
-- A list with a model that is configured and discovered.
use shepard.Base.{◌≤◌, ◌≡◌, refl, ◌||◌, [], ◌∷◌, List, arith}
use shepard.Config.Types.{Config}
use shepard.Config.Samples.{config_with}
use shepard.Discovery.{DiscoveredModel, sort_names}
use shepard.Catalog.{is_seen, aliases_of, list_models, list_static, list_discovered}
use shepard.Catalog.Listing.{
  count_name, count_listed, is_discovered, unit_if, count_listed-list_models,
}

abbrev found : List DiscoveredModel
found =
    record { alias = "chat"; model = "base"; provider = "far" }
    ∷ record { alias = "far/base"; model = "base"; provider = "far" }
    ∷ []

abbrev configured : Config
configured = config_with "far/" []

each_listed_once :
    list_models configured.models found
    ≡ record { id = "chat"; owned_by = "shepard" }
      ∷ record { id = "far/base"; owned_by = "far" }
      ∷ []
unfolding list_models list_static list_discovered sort_names aliases_of
each_listed_once = refl

listed_once : count_name "chat" (aliases_of configured.models) ≤ 1
unfolding aliases_of
listed_once = omega arith

count_listed-list_models_example :
    count_listed "chat" (list_models configured.models found)
    ≡ unit_if (is_seen "chat" (aliases_of configured.models) || is_discovered "chat" found)
count_listed-list_models_example =
    count_listed-list_models "chat" configured.models found listed_once
