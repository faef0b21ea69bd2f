-- ===== src/Config/Types.antt =====
-- The configuration's records. A `time.Duration` is a signed number of nanoseconds, and
-- `requests_per_minute`, a float64, a signed number of thousandths.
use shepard.Base.{ℤ, pos, String, Bool, false, Option, none, some, List, [], ◌∷◌, Map}
use shepard.Json.{Json}

pub record Limits : Type 0 where
  pub requests_per_minute : ℤ
  pub burst : ℤ
  pub max_concurrent : ℤ

pub record TargetConfig : Type 0 where
  pub provider : String
  pub model : String

pub record ModelConfig : Type 0 where
  pub provider : String
  pub model : String
  pub targets : List TargetConfig
  pub retries : ℤ
  pub limits : Limits
  pub overrides : Map Json
  pub prepend_system_prompt : String
  pub append_system_prompt : String

pub record AutodiscoverConfig : Type 0 where
  pub enabled : Bool
  pub prefix : String
  pub cache_ttl : ℤ

pub record ProviderConfig : Type 0 where
  pub base_url : String
  pub protocol : String
  pub api_key_env : String
  pub headers : Map String
  pub autodiscover : AutodiscoverConfig
  pub limits : Limits
  pub request_timeout : ℤ

pub record LoggingConfig : Type 0 where
  pub enabled : Bool
  pub requests : Bool
  pub responses : Bool
  pub include_bodies : Bool
  pub max_body_bytes : ℤ

-- `enabled` is a pointer in the source: `none` is nil.
pub record QueueConfig : Type 0 where
  pub enabled : Option Bool
  pub max_size : ℤ
  pub wait_timeout : ℤ

pub record ServerConfig : Type 0 where
  pub listen : String
  pub inbound_api_keys : List String
  pub usage_db : String
  pub max_concurrent_requests : ℤ
  pub client_limits : Limits
  pub read_header_timeout : ℤ
  pub idle_timeout : ℤ
  pub request_timeout : ℤ
  pub read_timeout : ℤ
  pub write_idle_timeout : ℤ
  pub readiness_cache_ttl : ℤ
  pub max_header_bytes : ℤ
  pub max_request_bytes : ℤ
  pub queue : QueueConfig
  pub logging : LoggingConfig
  pub client_networks : List String
  pub trusted_proxy_networks : List String

pub record Config : Type 0 where
  pub server : ServerConfig
  pub providers : Map ProviderConfig
  pub models : Map ModelConfig

-- `ResolvedTargets`: provider/model is the compact form of a single target.
unfoldable pub resolved_targets : ModelConfig → List TargetConfig
resolved_targets m = elim m.targets [
  | [] ↦ record { provider = m.provider; model = m.model } ∷ []
  | t ∷ ts ↦ t ∷ ts
]

-- A missing provider reads as Go's zero value.
abbrev pub zero_provider : ProviderConfig
zero_provider = record {
  base_url = "";
  protocol = "";
  api_key_env = "";
  headers = [];
  autodiscover = record { enabled = false; prefix = ""; cache_ttl = pos 0 };
  limits = record { requests_per_minute = pos 0; burst = pos 0; max_concurrent = pos 0 };
  request_timeout = pos 0;
}

abbrev pub provider_or_zero : Option ProviderConfig → ProviderConfig
provider_or_zero none = zero_provider
provider_or_zero (some p) = p
