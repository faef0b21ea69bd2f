-- ===== src/Timing/Tests.antt =====
-- The delays and the deadlines at small inputs.
use shepard.Base.{◌≡◌, refl, some}
use shepard.Timing.{backoff_delay, opencode_context}

first_delay : backoff_delay 0 ≡ 100_000_000
unfolding backoff_delay
first_delay = refl

longest_delay : backoff_delay 9 ≡ 1_600_000_000
unfolding backoff_delay
longest_delay = refl

parent_ends_first : opencode_context (some 7) 3 ≡ some 7
unfolding opencode_context
parent_ends_first = refl
