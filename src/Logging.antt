-- ===== src/Logging.antt =====
-- internal/gateway/logging.go, `logRequest` and `logResponse`, and the part of `proxy` in gateway.go
-- that fills the log of a response: what an entry of the log holds. Writing it is not modelled.
pub mod Content
mod Tests
use shepard.Base.{
  ℕ, ◌&&◌, ◌||◌, not, if◌then◌else◌, String, Bool, true, false, Option, none, some, List, [], ◌∷◌,
  Map, ℤ,
}
use shepard.Config.Types.{LoggingConfig}
use shepard.Headers.{Header, logged_headers}
use shepard.Buffers.{LogBodyBuffer, new_log_body_buffer, write_log, bounded_log_body}
use shepard.Identity.{Request}

pub record ConfigLogging : Type 0 where
  pub enabled : Bool
  pub requests : Bool
  pub responses : Bool
  pub include_bodies : Bool
  pub max_body_bytes : ℤ

unfoldable pub new_config_logging : LoggingConfig → ConfigLogging
new_config_logging c = record {
  enabled = c.enabled;
  requests = c.requests;
  responses = c.responses;
  include_bodies = c.include_bodies;
  max_body_bytes = c.max_body_bytes;
}

-- `body` has its bytes, and whether they were cut.
pub record RequestLog : Type 0 where
  pub method : String
  pub path : String
  pub model : String
  pub headers : Map String
  pub body : Option (List ℕ × Bool)

pub record ResponseLog : Type 0 where
  pub status : ℕ
  pub provider : String
  pub upstream_model : String
  pub headers : Map String
  pub body : Option (List ℕ × Bool)

unfoldable pub log_request : ConfigLogging → Request → String → List ℕ → Option RequestLog
log_request cfg r model body =
    if not cfg.enabled || not cfg.requests
    then none
    else some (record {
      method = r.method;
      path = r.path;
      model = model;
      headers = logged_headers r.header;
      body = if cfg.include_bodies then some (bounded_log_body body cfg.max_body_bytes) else none;
    })

abbrev pub shown_body : Option LogBodyBuffer → Option (List ℕ × Bool)
shown_body none = none
shown_body (some b) = some (b.buffer, b.truncated)

unfoldable pub log_response :
    ConfigLogging → ℕ → Header → String → String → Option LogBodyBuffer → Option ResponseLog
log_response cfg status header provider model body =
    if not cfg.enabled || not cfg.responses
    then none
    else some (record {
      status = status;
      provider = provider;
      upstream_model = model;
      headers = logged_headers header;
      body = if cfg.include_bodies then shown_body body else none;
    })

-- The log buffer behind the relayed body, which arrives in chunks.
unfoldable pub write_chunks : List (List ℕ) → LogBodyBuffer → LogBodyBuffer
write_chunks [] b = b
write_chunks (chunk ∷ chunks) b = write_chunks chunks (write_log b chunk)

unfoldable pub response_log : ConfigLogging → List (List ℕ) → Option LogBodyBuffer
unfolding write_chunks
response_log cfg chunks =
    if cfg.enabled && cfg.responses && cfg.include_bodies
    then some (write_chunks chunks (new_log_body_buffer cfg.max_body_bytes))
    else none

-- The entry of a relayed response.
unfoldable pub log_relayed :
    LoggingConfig → ℕ → Header → String → String → List (List ℕ) → Option ResponseLog
unfolding log_response response_log new_config_logging
log_relayed c status header provider model chunks =
    let cfg = new_config_logging c in
    log_response cfg status header provider model (response_log cfg chunks)
