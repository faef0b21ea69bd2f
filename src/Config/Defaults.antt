-- ===== src/Config/Defaults.antt =====
-- `defaults`: what an omitted setting means. A zero value counts as omitted.
use shepard.Base.{
  ℕ, ◌*◌, String, Bool, true, ◌&&◌, Option, none, some, [], ◌∷◌, Map, ℤ, pos, is_zero, is_pos, ◌==◌,
  string_eq, if◌then◌else◌,
}
use shepard.Base.Text.{◌<>◌}
use shepard.Config.Types.{
  Limits, ModelConfig, AutodiscoverConfig, ProviderConfig, ServerConfig, Config,
}

abbrev pub or_else : ℤ → ℕ → ℤ
or_else z d = if is_zero z then pos d else z

abbrev pub text_or : String → String → String
text_or s d = if s == "" then d else s

abbrev pub enabled_or : Option Bool → Option Bool
enabled_or none = some true
enabled_or (some b) = some b

abbrev second : ℕ
second = 1_000_000_000

unfoldable pub default_limits : Limits → Limits
default_limits l =
    if is_pos l.requests_per_minute && is_zero l.burst then record l { burst = pos 1 } else l

unfoldable pub default_autodiscover : String → AutodiscoverConfig → AutodiscoverConfig
default_autodiscover name a =
    if a.enabled
    then record a {
      prefix = text_or a.prefix (name <> "/");
      cache_ttl = or_else a.cache_ttl (60 * second);
    }
    else a

unfoldable pub default_provider : String → ProviderConfig → ProviderConfig
unfolding default_limits default_autodiscover
default_provider name p = record p {
  protocol = text_or p.protocol "openai";
  limits = default_limits p.limits;
  autodiscover = default_autodiscover name p.autodiscover;
}

unfoldable pub default_model : ModelConfig → ModelConfig
unfolding default_limits
default_model m = record m { limits = default_limits m.limits }

unfoldable pub default_providers : Map ProviderConfig → Map ProviderConfig
unfolding default_provider
default_providers [] = []
default_providers ((name, p) ∷ ps) = (name, default_provider name p) ∷ default_providers ps

unfoldable pub default_models : Map ModelConfig → Map ModelConfig
unfolding default_model
default_models [] = []
default_models ((alias, m) ∷ ms) = (alias, default_model m) ∷ default_models ms

unfoldable pub default_server : ServerConfig → ServerConfig
unfolding default_limits
default_server s = record s {
  listen = text_or s.listen ":8080";
  read_header_timeout = or_else s.read_header_timeout (10 * second);
  idle_timeout = or_else s.idle_timeout (120 * second);
  request_timeout = or_else s.request_timeout (600 * second);
  read_timeout = or_else s.read_timeout (30 * second);
  write_idle_timeout = or_else s.write_idle_timeout (30 * second);
  readiness_cache_ttl = or_else s.readiness_cache_ttl (3 * second);
  max_header_bytes = or_else s.max_header_bytes 65_536;
  max_concurrent_requests = or_else s.max_concurrent_requests 64;
  queue = record {
    enabled = enabled_or s.queue.enabled;
    max_size = or_else s.queue.max_size 32;
    wait_timeout = or_else s.queue.wait_timeout (30 * second);
  };
  logging = record s.logging { max_body_bytes = or_else s.logging.max_body_bytes 65_536 };
  max_request_bytes = or_else s.max_request_bytes 8_388_608;
  usage_db = text_or s.usage_db "shepard-usage.db";
  client_limits = default_limits s.client_limits;
}

unfoldable pub defaults : Config → Config
unfolding default_server default_providers default_models
defaults c = record {
  server = default_server c.server;
  providers = default_providers c.providers;
  models = default_models c.models;
}
