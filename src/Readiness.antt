-- ===== src/Readiness.antt =====
-- internal/gateway/readiness.go: the cached probe of the providers. The sections that hold the
-- cache's lock are each one atomic step; the probe itself runs between two of them.
pub mod Freshness
pub mod Handling
pub mod Honesty
pub mod Probes
pub mod Results
mod Tests
use Prim.Native.Nat.{◌%◌}
use shepard.Base.{
  ℕ, ◌+◌, ◌*◌, ◌==◌, nat_eq, ltb, if◌then◌else◌, String, Bool, true, false, ◌||◌, Option, none,
  some, List, [], ◌∷◌, Map, insert, ℤ, pos_part, neg_part, ◌-◌,
}

pub record ReadinessResult : Type 0 where
  pub status : Map String
  pub ready : Bool

-- `expires` is `none` for the zero time, and `inflight` says whether there is a channel.
pub record ReadinessCache : Type 0 where
  pub result : ReadinessResult
  pub expires : Option ℕ
  pub inflight : Bool
  pub generation : ℕ

abbrev pub no_result : ReadinessResult
no_result = record { status = []; ready = false }

unfoldable pub new_readiness_cache : ReadinessCache
new_readiness_cache = record {
  result = no_result;
  expires = none;
  inflight = false;
  generation = 0;
}

-- `generation` is a uint64.
abbrev pub uint64_size : ℕ
uint64_size = 18_446_744_073_709_551_616

unfoldable pub clear : ReadinessCache → ReadinessCache
clear c = record c {
  result = no_result;
  expires = none;
  generation = (c.generation + 1) % uint64_size;
}

abbrev clone_status : Map String → Map String
clone_status [] = []
clone_status ((name, value) ∷ status) = insert name value (clone_status status)

unfoldable pub clone_readiness_result : ReadinessResult → ReadinessResult
clone_readiness_result r = record r { status = clone_status r.status }

-- What a turn of the loop in `cachedReadiness` comes to under the lock: a cached result, a wait for
-- the probe in flight, or a new probe with the generation that it captures.
pub data Turn : Type 0 where
  cached : ReadinessResult → Turn
  waits : Turn
  probes : ℕ → Turn

abbrev pub is_fresh : ℕ → Option ℕ → Bool
is_fresh now none = false
is_fresh now (some expires) = ltb now expires

unfoldable pub take_turn : ℕ → ReadinessCache → Turn × ReadinessCache
unfolding clone_readiness_result
take_turn now c =
    if is_fresh now c.expires
    then (cached (clone_readiness_result c.result), c)
    else if c.inflight
    then (waits, c)
    else (probes c.generation, record c { inflight = true })

-- After the probe. The time to live was validated not to be negative.
unfoldable pub finish_probe : ℕ → ℕ → ℕ → ReadinessResult → ReadinessCache → ReadinessCache
unfolding clone_readiness_result
finish_probe now ttl generation result c =
    if generation == c.generation
    then record c {
      result = clone_readiness_result result;
      expires = some (now + ttl);
      inflight = false;
    }
    else record c { inflight = false }

abbrev pub status_text : Bool → String
status_text true = "ok"
status_text false = "unavailable"

-- The loop of `checkReadiness` over the results, in the order in which they arrive.
unfoldable pub collect : Map Bool → ReadinessResult → ReadinessResult
collect [] r = r
collect ((name, ok) ∷ items) r =
    collect items (record { status = insert name (status_text ok) r.status; ready = ok || r.ready })

unfoldable pub check_readiness : Map Bool → ReadinessResult
unfolding collect
check_readiness items = collect items no_result
