-- ===== src/Config/Samples.antt =====
-- Small configurations for the tests.
use shepard.Base.{◌≡◌, refl, none, lookup, insert, true, false, some, [], ◌∷◌, Map, pos, String}
use shepard.Config.Types.{
  Limits, ModelConfig, ProviderConfig, ServerConfig, Config, resolved_targets,
}
use shepard.Config.Validation.{Parsers, validate}
use shepard.Base.Text.{trim_space, contains}
use shepard.Json.{Json}

abbrev pub limited : Limits
limited = record { requests_per_minute = pos 60_000; burst = pos 2; max_concurrent = pos 4 }

abbrev pub provider_at : String → ProviderConfig
provider_at prefix = record {
  base_url = "http://upstream";
  protocol = "openai";
  api_key_env = "";
  headers = [];
  autodiscover = record { enabled = true; prefix = prefix; cache_ttl = pos 0 };
  limits = limited;
  request_timeout = pos 0;
}

abbrev pub model_with : Map Json → ModelConfig
model_with overrides = record {
  provider = "near";
  model = "base";
  targets = [];
  retries = pos 1;
  limits = limited;
  overrides = overrides;
  prepend_system_prompt = "";
  append_system_prompt = "";
}

abbrev pub server : ServerConfig
server = record {
  listen = ":8080";
  inbound_api_keys = [];
  usage_db = "usage.db";
  max_concurrent_requests = pos 2;
  client_limits = limited;
  read_header_timeout = pos 1;
  idle_timeout = pos 1;
  request_timeout = pos 1;
  read_timeout = pos 1;
  write_idle_timeout = pos 1;
  readiness_cache_ttl = pos 1;
  max_header_bytes = pos 1;
  max_request_bytes = pos 1;
  queue = record { enabled = some true; max_size = pos 1; wait_timeout = pos 1 };
  logging = record {
    enabled = false;
    requests = false;
    responses = false;
    include_bodies = false;
    max_body_bytes = pos 1;
  };
  client_networks = "10.0.0.0/8" ∷ [];
  trusted_proxy_networks = [];
}

abbrev pub config_with : String → Map Json → Config
config_with prefix overrides = record {
  server = server;
  providers = ("near", provider_at "near/") ∷ ("far", provider_at prefix) ∷ [];
  models = ("chat", model_with overrides) ∷ [];
}

-- Parsers that accept everything.
abbrev pub lenient : Parsers
lenient = record {
  parse_url = λ address. some ("http", address);
  is_cidr = λ address. true;
  is_ip = λ address. true;
}

pub two_providers_pass : validate lenient (config_with "far/" []) ≡ none
unfolding validate resolved_targets lookup insert trim_space contains
two_providers_pass = refl
