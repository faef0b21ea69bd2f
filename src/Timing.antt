-- ===== src/Timing.antt =====
-- internal/gateway/gateway.go: the deadlines of contexts, and the delay before a retry. Times count
-- nanoseconds.
mod Tests
use Prim.Native.Nat.{◌^◌}
use native.Mathlib.Nat.{add-zero, add-suc}
use shepard.Base.{
  ℕ, zero, suc, ◌+◌, ◌-◌, ◌*◌, ap, ◌≤◌, ◌≡◌, refl, min, Option, none, some, ℤ, is_pos, pos_part,
  not, if◌then◌else◌, arith, true, ltb, leb, Bool-cases, inl, inr,
}
use shepard.Config.Types.{ServerConfig, ProviderConfig, ModelConfig}
use shepard.Config.Entries.{IsModelValid}
use shepard.Base.{Map, String}

-- A context's deadline; `none` where it has none. A context that is made from another ends no later
-- than that one, as the package context has it.
abbrev pub Deadline : Type 0
Deadline = Option ℕ

abbrev pub with_timeout : Deadline → ℕ → Deadline
with_timeout none end = some end
with_timeout (some parent) end = some (min parent end)

abbrev pub limited_to : Deadline → ℕ → ℤ → Deadline
limited_to parent now timeout =
    if is_pos timeout then with_timeout parent (now + pos_part timeout) else parent

-- The context of a request, of one of its attempts, and of a listing.
unfoldable pub request_context : Deadline → ℕ → ServerConfig → Deadline
request_context parent now s = limited_to parent now s.request_timeout

unfoldable pub attempt_context : Deadline → ℕ → ProviderConfig → Deadline
attempt_context parent now provider = limited_to parent now provider.request_timeout

unfoldable pub discovery_context : Deadline → ℕ → ServerConfig → Deadline
discovery_context parent now s =
    if not (is_pos s.request_timeout)
    then parent
    else with_timeout parent (now + pos_part s.request_timeout)

-- Five seconds for the configuration of OpenCode.
unfoldable pub opencode_context : Deadline → ℕ → Deadline
opencode_context parent now = with_timeout parent (now + 5_000_000_000)

-- One deadline comes no later than another.
abbrev pub IsWithin : Deadline → Deadline → Type 0
IsWithin d none = Unit {0}
IsWithin none (some n) = ⊥
IsWithin (some m) (some n) = m ≤ n

limited_to-IsWithin :
    (parent : Deadline) (now : ℕ) (timeout : ℤ) → IsWithin (limited_to parent now timeout) parent
limited_to-IsWithin none now timeout = tt
limited_to-IsWithin (some n) now timeout = elim (Bool-cases (is_pos timeout)) [
  | inl on ↦ rw on (omega arith)
  | inr off ↦ rw off (omega arith)
]

-- An attempt has no more time than its request, and a request no more than its client's connection.
pub attempt_context-IsWithin :
    (parent : Deadline) (now : ℕ) (provider : ProviderConfig)
    → IsWithin (attempt_context parent now provider) parent
unfolding attempt_context
attempt_context-IsWithin parent now provider =
    limited_to-IsWithin parent now provider.request_timeout

-- The delay of `waitForRetry`: a tenth of a second, doubled with each attempt up to the fifth.
unfoldable pub backoff_delay : ℕ → ℕ
backoff_delay attempt = 100_000_000 * 2 ^ min attempt 4

-- The delays after the first `n` attempts.
unfoldable pub total_backoff : ℕ → ℕ
unfolding backoff_delay
total_backoff zero = 0
total_backoff (suc n) = total_backoff n + backoff_delay n

total_backoff-add : (m n : ℕ) → total_backoff m ≤ total_backoff (m + n)
unfolding total_backoff
total_backoff-add m zero = rw add-zero (omega arith)
total_backoff-add m (suc n) = rw add-suc (omega (arith, total_backoff-add m n))

ten_delays : total_backoff 10 ≡ 11_100_000_000
unfolding total_backoff
ten_delays = refl

-- The delays after the attempts at one target, under a configuration that passes `Validate`, are at
-- most 11.1 seconds.
pub total_backoff_le :
    (providers : Map ProviderConfig) (alias : String) (m : ModelConfig)
    → IsModelValid providers alias m
    → total_backoff (pos_part m.retries) ≤ 11_100_000_000
total_backoff_le providers alias m v =
    let rest : ℕ = 10 - pos_part m.retries in
    let all : pos_part m.retries + rest ≡ 10 = omega (arith, v.retries) in
    let most : total_backoff (pos_part m.retries) ≤ total_backoff (pos_part m.retries + rest) =
      total_backoff-add (pos_part m.retries) rest in
    omega (arith, most, ap total_backoff all, ten_delays)
