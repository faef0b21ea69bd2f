-- ===== src/Logging/Tests.antt =====
-- The entry of a streamed response.
use shepard.Base.{◌≡◌, refl, true, false, some, [], ◌∷◌, List, ℕ, pos, arith}
use shepard.Config.Types.{LoggingConfig}
use shepard.Headers.{Header, logged_headers}
use shepard.Buffers.{write_log, new_log_body_buffer}
use shepard.Buffers.Tail.{stream}
use shepard.Logging.{log_relayed}
use shepard.Logging.Content.{Tells, log_relayed-Tells}

abbrev verbose : LoggingConfig
verbose = record {
  enabled = true;
  requests = false;
  responses = true;
  include_bodies = true;
  max_body_bytes = pos 3;
}

abbrev header : Header
header = ("Set-Cookie", "session" ∷ []) ∷ ("Content-Type", "text/plain" ∷ []) ∷ []

abbrev chunks : List (List ℕ)
chunks = (1 ∷ 2 ∷ []) ∷ (3 ∷ 4 ∷ []) ∷ []

body_cut :
    log_relayed verbose 200 header "near" "base" chunks
    ≡ some (record {
      status = 200;
      provider = "near";
      upstream_model = "base";
      headers = logged_headers header;
      body = some (1 ∷ 2 ∷ 3 ∷ [], true);
    })
unfolding log_relayed write_log new_log_body_buffer
body_cut = refl

log_relayed-Tells_example :
    Tells verbose header (stream chunks) (log_relayed verbose 200 header "near" "base" chunks)
log_relayed-Tells_example =
    log_relayed-Tells verbose 200 header "near" "base" chunks (omega arith, (omega arith, tt))
