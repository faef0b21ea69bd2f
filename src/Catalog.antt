-- ===== src/Catalog.antt =====
-- internal/gateway/gateway.go, `models` and `opencodeConfig`: the models that a client can ask for,
-- those of the configuration and those that providers list.
pub mod Listing
mod Tests
use shepard.Base.{
  ◌==◌, string_eq, ◌||◌, if◌then◌else◌, String, Bool, true, false, List, [], ◌∷◌, ◌++◌, Map, Option,
  none, some,
}
use shepard.Base.Text.{◌<>◌, text_lt}
use shepard.Json.{Json, str, arr, obj, to_items, to_fields}
use shepard.Config.Types.{ModelConfig}
use shepard.Discovery.{DiscoveredModel, insert_name, sort_names}
use shepard.Identity.{Request, header_get}

unfoldable pub aliases_of : Map ModelConfig → List String
aliases_of [] = []
aliases_of ((alias, model) ∷ models) = alias ∷ aliases_of models

-- One item of the list: the identifier, and who owns it.
pub record ListedModel : Type 0 where
  pub id : String
  pub owned_by : String

abbrev pub is_seen : String → List String → Bool
is_seen alias [] = false
is_seen alias (first ∷ seen) = first == alias || is_seen alias seen

unfoldable pub list_static : List String → List ListedModel
list_static [] = []
list_static (alias ∷ aliases) = record { id = alias; owned_by = "shepard" } ∷ list_static aliases

-- The second loop of `models`, with the aliases that were seen before.
unfoldable pub list_discovered : List String → List DiscoveredModel → List ListedModel
list_discovered seen [] = []
list_discovered seen (m ∷ ms) =
    let listed =
      record { id = m.alias; owned_by = m.provider } ∷ list_discovered (m.alias ∷ seen) ms in
    let skipped = list_discovered seen ms in if is_seen m.alias seen then skipped else listed

unfoldable pub list_models : Map ModelConfig → List DiscoveredModel → List ListedModel
unfolding list_static list_discovered aliases_of sort_names
list_models models discovered =
    list_static (sort_names (aliases_of models))
    ++ list_discovered (sort_names (aliases_of models)) discovered

abbrev pub item_of : ListedModel → Json
item_of m =
    obj (to_fields (("id", str m.id) ∷ ("object", str "model") ∷ ("owned_by", str m.owned_by) ∷ []))

abbrev pub items_of : List ListedModel → List Json
items_of [] = []
items_of (m ∷ ms) = item_of m ∷ items_of ms

unfoldable pub models_body : Map ModelConfig → List DiscoveredModel → Json
unfolding list_models
models_body models discovered = obj (
    to_fields (
      ("object", str "list")
      ∷ ("data", arr (to_items (items_of (list_models models discovered))))
      ∷ []))

-- The keys of `modelIDs`: the aliases once each.
unfoldable pub add_id : String → List String → List String
add_id alias ids = if is_seen alias ids then ids else alias ∷ ids

unfoldable pub model_ids : List String → List DiscoveredModel → List String
unfolding add_id
model_ids aliases [] = aliases
model_ids aliases (m ∷ ms) = add_id m.alias (model_ids aliases ms)

unfoldable pub request_base_url : Request → String
unfolding header_get
request_base_url r =
    let proto = header_get "X-Forwarded-Proto" r.header in
    let scheme = if proto == "" then (if r.tls then "https" else "http") else proto in
    scheme <> "://" <> r.host

abbrev pub named_models : List String → List (String × Json)
named_models [] = []
named_models (alias ∷ aliases) =
    (alias, obj (to_fields (("name", str alias) ∷ []))) ∷ named_models aliases

-- `none` where no model is configured. No credential is among the arguments.
unfoldable pub opencode_body : Request → List String → Option Json
unfolding request_base_url
opencode_body r [] = none
opencode_body r (first ∷ aliases) = some (
    obj (
      to_fields (
        ("$schema", str "https://opencode.ai/config.json")
        ∷ ("model", str ("shepard/" <> first))
        ∷ (
          "provider",
          obj (
              to_fields (
                (
                  "shepard",
                  obj (
                      to_fields (
                        ("npm", str "@ai-sdk/openai-compatible")
                        ∷ ("name", str "Shepard")
                        ∷ (
                          "options",
                          obj (to_fields (("baseURL", str (request_base_url r <> "/v1")) ∷ [])),
                        )
                        ∷ ("models", obj (to_fields (named_models (first ∷ aliases))))
                        ∷ [])),
                )
                ∷ [])),
        )
        ∷ [])))

unfoldable pub opencode_config : Request → Map ModelConfig → List DiscoveredModel → Option Json
unfolding opencode_body model_ids sort_names aliases_of
opencode_config r models discovered =
    opencode_body r (sort_names (model_ids (aliases_of models) discovered))
