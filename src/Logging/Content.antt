-- ===== src/Logging/Content.antt =====
-- What the log tells of a response, and what it never tells.
use mathlib.Core.Option
use shepard.Base.{
  ℕ, ◌<◌, ◌≡◌, refl, sym, take_all, ◌&&◌, if◌then◌else◌, String, Bool, true, false, Option, none,
  some, List, [], ◌∷◌, lookup, ℤ, pos_part, ltb, length, take, All, arith, Bool-cases, inl, inr,
}
use shepard.Base.Text.{join}
use shepard.Config.Types.{LoggingConfig}
use shepard.Headers.{Header, is_in, sensitive_headers, logged_headers}
use shepard.Headers.Filtering.{lookup-logged_headers}
use shepard.Buffers.{LogBodyBuffer, new_log_body_buffer, write_log}
use shepard.Buffers.Tail.{stream}
use shepard.Buffers.Prefix.{write_all, write_all-Shows}
use shepard.Logging.{
  ResponseLog, write_chunks, shown_body, response_log, log_response, log_relayed,
  new_config_logging,
}

write_chunks-eq-write_all :
    (chunks : List (List ℕ)) (b : LogBodyBuffer) → write_chunks chunks b ≡ write_all b chunks
unfolding write_chunks
write_chunks-eq-write_all [] b = refl
write_chunks-eq-write_all (chunk ∷ chunks) b = write_chunks-eq-write_all chunks (write_log b chunk)

limit-write_all :
    (chunks : List (List ℕ)) (b : LogBodyBuffer) → (write_all b chunks).limit ≡ b.limit
unfolding write_log
limit-write_all [] b = refl
limit-write_all (chunk ∷ chunks) b = ground (arith, limit-write_all chunks (write_log b chunk))

-- The beginning of a body, as much as the limit allows, and whether it was longer.
abbrev pub excerpt : ℤ → List ℕ → List ℕ × Bool
excerpt limit body = (take (pos_part limit) body, ltb (pos_part limit) (length body))

shown_body-excerpt :
    (limit : ℤ) (chunks : List (List ℕ))
    → All (λ chunk. 0 < length chunk) chunks
    → shown_body (some (write_chunks chunks (new_log_body_buffer limit)))
      ≡ some (excerpt limit (stream chunks))
unfolding new_log_body_buffer
shown_body-excerpt limit chunks n =
    let empty : LogBodyBuffer = record { buffer = []; limit = limit; truncated = false } in
    let s =
      write_all-Shows empty [] chunks n
        (record { kept = sym (take_all (pos_part limit) [] (omega arith)); cut = ground arith }) in
    rw (write_chunks-eq-write_all chunks empty, s.kept, s.cut, limit-write_all chunks empty) refl

-- The entry of a response, if there is one.
pub data Tells (c : LoggingConfig) (header : Header) (body : List ℕ)
    : Option ResponseLog → Type 0 where
  silent : (c.enabled && c.responses) ≡ false → Tells c header body none
  tells :
      (entry : ResponseLog)
      → (c.enabled && c.responses) ≡ true
      → ((key : String)
          → lookup key entry.headers
            ≡ Option.map
                (λ vs. if is_in key sensitive_headers then "[REDACTED]" else join vs ", ")
                (lookup key header))
      → entry.body ≡ (if c.include_bodies then some (excerpt c.max_body_bytes body) else none)
      → Tells c header body (some entry)

log_relayed-on :
    (c : LoggingConfig) (status : ℕ) (header : Header) (provider model : String)
    (chunks : List (List ℕ))
    → (c.enabled && c.responses) ≡ true
    → log_relayed c status header provider model chunks
      ≡ some (record {
        status = status;
        provider = provider;
        upstream_model = model;
        headers = logged_headers header;
        body =
            if c.include_bodies
            then shown_body (some (write_chunks chunks (new_log_body_buffer c.max_body_bytes)))
            else none;
      })
unfolding log_relayed log_response response_log new_config_logging
log_relayed-on c status header provider model chunks on = ground arith

log_relayed-off :
    (c : LoggingConfig) (status : ℕ) (header : Header) (provider model : String)
    (chunks : List (List ℕ))
    → (c.enabled && c.responses) ≡ false
    → log_relayed c status header provider model chunks ≡ none
unfolding log_relayed log_response response_log new_config_logging
log_relayed-off c status header provider model chunks off = ground arith

-- A relayed response, in chunks that are not empty, has a log entry exactly when logging and
-- responses are enabled. The entry shows each header that the response has and no other, as
-- redacted if it is sensitive and else with its values; and a body only if bodies are included, and
-- then its first `max_body_bytes` bytes, with whether it was longer.
pub log_relayed-Tells :
    (c : LoggingConfig) (status : ℕ) (header : Header) (provider model : String)
    (chunks : List (List ℕ))
    → All (λ chunk. 0 < length chunk) chunks
    → Tells c header (stream chunks) (log_relayed c status header provider model chunks)
log_relayed-Tells c status header provider model chunks n =
    elim (Bool-cases (c.enabled && c.responses)) [
      | inl on ↦ rw (log_relayed-on c status header provider model chunks on) (
          tells _ on (λ key. lookup-logged_headers key header)
            (rw (shown_body-excerpt c.max_body_bytes chunks n) refl))
      | inr off ↦ rw (log_relayed-off c status header provider model chunks off) (silent off)
    ]
