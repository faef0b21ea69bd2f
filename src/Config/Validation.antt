-- ===== src/Config/Validation.antt =====
-- `Validate`: the checks in the source's order; the first that fails decides. The source ranges over
-- maps in an order that Go leaves open; here it is the order of the association list.
use shepard.Base.{
  String, Bool, true, false, not, ◌&&◌, ◌||◌, Option, none, some, List, [], ◌∷◌, ◌++◌, Map, lookup,
  insert, pos, ltb_ℤ, is_neg, is_zero, ◌==◌, string_eq, if◌then◌else◌,
}
use shepard.Base.Text.{◌<>◌, contains, trim_space}
use shepard.Json.{Json}
use shepard.Config.Types.{
  Limits, TargetConfig, ModelConfig, ProviderConfig, ServerConfig, Config, resolved_targets,
}

-- The errors, each by what its message names.
pub data Problem : Type 0 where
  no_provider no_model empty_network empty_alias : Problem
  negative_setting base_url api_key_env protocol request_timeout : String → Problem
  same_prefix : String → String → String → Problem
  negative_limits burst_without_rate : String → Problem
  invalid_network : String → Problem
  two_forms no_form retries empty_target : String → Problem
  protected_override : String → String → Problem
  unknown_provider : String → String → Problem

-- `if … { return err }`, and then the rest.
infixr 25 ◌or_then◌
abbrev pub ◌or_then◌ : Option Problem → Option Problem → Option Problem
none or_then rest = rest
some e or_then rest = some e

abbrev pub reject : Bool → Problem → Option Problem
reject true e = some e
reject false e = none

unfoldable pub validate_limits : String → Limits → Option Problem
validate_limits scope l =
    reject (is_neg l.requests_per_minute || is_neg l.burst || is_neg l.max_concurrent)
      (negative_limits scope)
    or_then reject (is_zero l.requests_per_minute && not (is_zero l.burst))
        (burst_without_rate scope)

abbrev pub is_protected : String → Bool
is_protected key = key == "model" || key == "messages" || key == "input" || key == "instructions"

unfoldable pub validate_overrides : String → Map Json → Option Problem
validate_overrides alias [] = none
validate_overrides alias ((key, value) ∷ overrides) =
    reject (is_protected key) (protected_override alias key)
    or_then validate_overrides alias overrides

abbrev pub is_missing : Option ProviderConfig → Bool
is_missing none = true
is_missing (some p) = false

unfoldable pub validate_targets : Map ProviderConfig → String → List TargetConfig → Option Problem
validate_targets providers alias [] = none
validate_targets providers alias (t ∷ ts) =
    reject (t.model == "") (empty_target alias)
    or_then reject (is_missing (lookup t.provider providers)) (unknown_provider alias t.provider)
    or_then validate_targets providers alias ts

abbrev pub is_empty : List TargetConfig → Bool
is_empty [] = true
is_empty (t ∷ ts) = false

unfoldable pub validate_model : Map ProviderConfig → String → ModelConfig → Option Problem
unfolding validate_limits validate_overrides validate_targets
validate_model providers alias m =
    reject (alias == "") empty_alias
    or_then reject (not (is_empty m.targets) && (not (m.provider == "") || not (m.model == "")))
        (two_forms alias)
    or_then reject (is_empty m.targets && (m.provider == "" || m.model == "")) (no_form alias)
    or_then reject (is_neg m.retries || ltb_ℤ (pos 10) m.retries) (retries alias)
    or_then validate_overrides alias m.overrides
    or_then validate_limits ("model " <> alias) m.limits
    or_then validate_targets providers alias (resolved_targets m)

unfoldable pub validate_models : Map ProviderConfig → Map ModelConfig → Option Problem
unfolding validate_model
validate_models providers [] = none
validate_models providers ((alias, m) ∷ models) =
    validate_model providers alias m or_then validate_models providers models

-- `url.Parse` keeps, of an address that it accepts, the scheme and the host; the network parsers say
-- whether they accept an address.
pub record Parsers : Type 0 where
  pub parse_url : String → Option (String × String)
  pub is_cidr : String → Bool
  pub is_ip : String → Bool

abbrev pub is_bad_url : Option (String × String) → Bool
is_bad_url none = true
is_bad_url (some (scheme, host)) = scheme == "" || host == ""

abbrev pub any_autodiscover : Map ProviderConfig → Bool
any_autodiscover [] = false
any_autodiscover ((name, p) ∷ providers) = p.autodiscover.enabled || any_autodiscover providers

abbrev pub has_models : Config → Bool
has_models c = elim c.models [ [] ↦ any_autodiscover c.providers | _ ↦ true ]

abbrev pub is_without : Map ProviderConfig → Bool
is_without [] = true
is_without (p ∷ ps) = false

module _ (parsers : Parsers) where
  -- The error of a provider alone; its prefix is checked against those seen before.
  unfoldable pub validate_prefix : Map String → String → ProviderConfig → Option Problem
  validate_prefix prefixes name p =
      if p.autodiscover.enabled
      then elim (lookup p.autodiscover.prefix prefixes) [
        | none ↦ none
        | some other ↦ some (same_prefix other name p.autodiscover.prefix)
      ]
      else none

  unfoldable pub validate_provider : Map String → String → ProviderConfig → Option Problem
  unfolding validate_limits validate_prefix
  validate_provider prefixes name p =
      reject (is_bad_url (parsers.parse_url p.base_url)) (base_url name)
      or_then reject (not (p.api_key_env == "") && contains p.api_key_env b'$') (api_key_env name)
      or_then validate_prefix prefixes name p
      or_then validate_limits ("provider " <> name) p.limits
      or_then reject (not (p.protocol == "openai") && not (p.protocol == "ollama")) (protocol name)
      or_then reject (is_neg p.request_timeout) (request_timeout name)

  abbrev pub add_prefix : Map String → String → ProviderConfig → Map String
  add_prefix prefixes name p =
      if p.autodiscover.enabled then insert p.autodiscover.prefix name prefixes else prefixes

  unfoldable pub validate_providers : Map String → Map ProviderConfig → Option Problem
  unfolding validate_provider
  validate_providers prefixes [] = none
  validate_providers prefixes ((name, p) ∷ providers) =
      validate_provider prefixes name p
      or_then validate_providers (add_prefix prefixes name p) providers

  unfoldable pub validate_networks : List String → Option Problem
  validate_networks [] = none
  validate_networks (value ∷ values) =
      reject (trim_space value == "") empty_network
      or_then reject
          (if contains (trim_space value) b'/'
            then not (parsers.is_cidr (trim_space value))
            else not (parsers.is_ip (trim_space value)))
          (invalid_network (trim_space value))
      or_then validate_networks values

  unfoldable pub validate_server : ServerConfig → Option Problem
  unfolding validate_limits validate_networks
  validate_server s =
      validate_limits "server client_limits" s.client_limits
      or_then reject (is_neg s.queue.max_size) (negative_setting "queue max_size")
      or_then reject (is_neg s.queue.wait_timeout) (negative_setting "queue wait_timeout")
      or_then reject (is_neg s.logging.max_body_bytes) (negative_setting "logging max_body_bytes")
      or_then reject (is_neg s.max_concurrent_requests) (negative_setting "max_concurrent_requests")
      or_then reject (is_neg s.max_header_bytes) (negative_setting "max_header_bytes")
      or_then reject (is_neg s.write_idle_timeout) (negative_setting "write_idle_timeout")
      or_then reject (is_neg s.readiness_cache_ttl) (negative_setting "readiness_cache_ttl")
      or_then validate_networks (s.client_networks ++ s.trusted_proxy_networks)

  unfoldable pub validate : Config → Option Problem
  unfolding validate_providers validate_server validate_models
  validate c =
      reject (is_without c.providers) no_provider
      or_then validate_providers [] c.providers
      or_then validate_server c.server
      or_then reject (not (has_models c)) no_model
      or_then validate_models c.providers c.models
