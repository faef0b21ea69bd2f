-- ===== src/Limiter.antt =====
-- internal/gateway/limiter.go: token buckets and concurrency counters, shared under one lock.
-- `admit` and the release function are each one atomic step, since both hold the store's lock.
pub mod Decision
pub mod Holds
pub mod Rate
pub mod Traffic
pub mod Capacity
mod Tests
use shepard.Base.{
  ℕ, zero, suc, ◌+◌, ◌-◌, ◌*◌, Bool, true, false, ◌&&◌, Option, none, some, List, [], ◌∷◌, String,
  Map, lookup, insert, erase, is_pos, pos_part, ltb, leb, min, not, if◌then◌else◌, ◌==◌, nat_eq,
}
use shepard.Config.Types.{Limits}

pub record AdmissionScope : Type 0 where
  pub key : String
  pub limits : Limits

-- `tokens` counts parts of a token and `updated` nanoseconds, so that a refill is exact.
pub record BucketState : Type 0 where
  pub tokens : ℕ
  pub updated : ℕ

pub record LimitStore : Type 0 where
  pub buckets : Map BucketState
  pub concurrent : Map ℕ

-- One token: a minute's nanoseconds times the thousandths in which rates are given.
abbrev pub token : ℕ
token = 60_000_000_000_000

unfoldable pub new_limit_store : LimitStore
new_limit_store = record { buckets = []; concurrent = [] }

-- Keeps the concurrency that active requests hold.
unfoldable pub clear : LimitStore → LimitStore
clear s = record s { buckets = [] }

-- Reading a missing key of `concurrent` gives 0.
abbrev pub count_or_zero : Option ℕ → ℕ
count_or_zero none = 0
count_or_zero (some n) = n

unfoldable pub in_use : String → LimitStore → ℕ
in_use key s = count_or_zero (lookup key s.concurrent)

-- The bucket at the time `now`: full at first, else refilled by the time that passed. A negative
-- burst, which `Validate` refuses, counts as 0.
unfoldable pub refill : ℕ → Limits → Option BucketState → BucketState
refill now l none = record { tokens = token * pos_part l.burst; updated = now }
refill now l (some b) = record {
  tokens =
      min (b.tokens + (now - b.updated) * pos_part l.requests_per_minute)
        (token * pos_part l.burst);
  updated = now;
}

unfoldable pub at_capacity : LimitStore → AdmissionScope → Bool
unfolding in_use
at_capacity s scope =
    is_pos scope.limits.max_concurrent
    && leb (pos_part scope.limits.max_concurrent) (in_use scope.key s)

-- What the first loop of `admit` comes to: an early return with the store as it leaves it, or the
-- refilled buckets of the scopes.
pub data Checked : Type 0 where
  rejected : LimitStore → Checked
  passed : Map BucketState → Checked

unfoldable pub check_scope : ℕ → LimitStore → Map BucketState → AdmissionScope → Checked
unfolding at_capacity refill
check_scope now s states scope =
    let state = refill now scope.limits (lookup scope.key s.buckets) in
    if at_capacity s scope
    then rejected s
    else if not (is_pos scope.limits.requests_per_minute)
    then passed states
    else if ltb state.tokens token
    then rejected (record s { buckets = insert scope.key state s.buckets })
    else passed (insert scope.key state states)

unfoldable pub check_scopes : ℕ → LimitStore → Map BucketState → List AdmissionScope → Checked
unfolding check_scope
check_scopes now s states [] = passed states
check_scopes now s states (scope ∷ scopes) = elim (check_scope now s states scope) [
  | rejected s' ↦ rejected s'
  | passed states' ↦ check_scopes now s states' scopes
]

-- The zero value of a Go struct, for a key that is not in `states`.
abbrev pub state_or_zero : Option BucketState → BucketState
state_or_zero none = record { tokens = 0; updated = 0 }
state_or_zero (some b) = b

abbrev pub spend : BucketState → BucketState
spend b = record b { tokens = b.tokens - token }

-- One round of the second loop, which consumes. A key that `states` shows twice is read there each
-- time, as in the source.
unfoldable pub consume : Map BucketState → LimitStore → AdmissionScope → LimitStore
unfolding in_use
consume states s scope = record s {
  buckets =
      if is_pos scope.limits.requests_per_minute
      then insert scope.key (spend (state_or_zero (lookup scope.key states))) s.buckets
      else s.buckets;
  concurrent =
      if is_pos scope.limits.max_concurrent
      then insert scope.key (in_use scope.key s + 1) s.concurrent
      else s.concurrent;
}

unfoldable pub consume_all : Map BucketState → LimitStore → List AdmissionScope → LimitStore
unfolding consume
consume_all states s [] = s
consume_all states s (scope ∷ scopes) = consume_all states (consume states s scope) scopes

-- The release function captures its scopes, which stand for it in the result.
unfoldable pub admit :
    ℕ → List AdmissionScope → LimitStore → Option (List AdmissionScope) × LimitStore
unfolding check_scopes consume_all
admit now scopes s = elim (check_scopes now s [] scopes) [
  | rejected s' ↦ (none, s')
  | passed states ↦ (some scopes, consume_all states s scopes)
]

unfoldable pub release_scope : LimitStore → AdmissionScope → LimitStore
unfolding in_use
release_scope s scope =
    if is_pos scope.limits.max_concurrent && ltb 0 (in_use scope.key s)
    then record s {
      concurrent =
          if in_use scope.key s - 1 == 0
          then erase scope.key s.concurrent
          else insert scope.key (in_use scope.key s - 1) s.concurrent;
    }
    else s

unfoldable pub release : List AdmissionScope → LimitStore → LimitStore
unfolding release_scope
release [] s = s
release (scope ∷ scopes) s = release scopes (release_scope s scope)
