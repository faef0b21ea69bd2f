-- ===== src/Buffers.antt =====
-- internal/gateway/gateway.go (tailBuffer) and logging.go (logBodyBuffer): two bounded views of a
-- stream of bytes, its end for the usage accounting and its beginning for the log.
pub mod Tail
pub mod Prefix
mod Tests
use shepard.Base.{
  ℕ, ◌+◌, ◌-◌, Bool, true, false, not, List, [], ◌∷◌, ◌++◌, ℤ, is_pos, pos_part, leb, ltb, length,
  take, drop, if◌then◌else◌,
}

-- `limit` is an int that the program sets to a positive constant.
pub record TailBuffer : Type 0 where
  pub buf : List ℕ
  pub limit : ℕ

-- The number that `Write` returns is the length of its argument.
unfoldable pub write_tail : TailBuffer → List ℕ → TailBuffer
write_tail b p =
    let overflow = length b.buf + length p - b.limit in
    if leb b.limit (length p)
    then record b { buf = drop (length p - b.limit) p }
    else if ltb 0 overflow
    then record b { buf = drop overflow b.buf ++ p }
    else record b { buf = b.buf ++ p }

pub record LogBodyBuffer : Type 0 where
  pub buffer : List ℕ
  pub limit : ℤ
  pub truncated : Bool

unfoldable pub new_log_body_buffer : ℤ → LogBodyBuffer
new_log_body_buffer limit = record { buffer = []; limit = limit; truncated = false }

-- `remaining` is a difference of int64 values, at most 0 where the one on ℕ is 0.
unfoldable pub write_log : LogBodyBuffer → List ℕ → LogBodyBuffer
write_log b p =
    let remaining = pos_part b.limit - length b.buffer in
    if not (is_pos b.limit)
    then record b { truncated = true }
    else if not (ltb 0 remaining)
    then record b { truncated = true }
    else if ltb remaining (length p)
    then record b { buffer = b.buffer ++ take remaining p; truncated = true }
    else record b { buffer = b.buffer ++ p }

unfoldable pub bounded_log_body : List ℕ → ℤ → List ℕ × Bool
unfolding write_log new_log_body_buffer
bounded_log_body body limit =
    let written = write_log (new_log_body_buffer limit) body in (written.buffer, written.truncated)
