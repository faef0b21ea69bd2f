-- ===== src/Readiness/Handling.antt =====
-- The loop of `cachedReadiness` and the handler `ready`, with the waits for a probe in flight.
use shepard.Base.{
  ℕ, nat_eq, String, Bool, Option, none, some, List, [], ◌∷◌, Map, string_eq, if◌then◌else◌,
}
use shepard.Readiness.{
  ReadinessResult, ReadinessCache, Turn, cached, waits, probes, take_turn, finish_probe,
  check_readiness,
}

-- A wait for the probe in flight ends with the request's context, or at a later time with the
-- probe, after others changed the cache.
pub data Wakeup : Type 0 where
  context_done : Wakeup
  probe_done : ℕ → (ReadinessCache → ReadinessCache) → Wakeup

-- The probe that this request would run: the answers in the order in which they arrive, what others
-- do to the cache meanwhile, and when and for how long its result is cached.
pub record Probing : Type 0 where
  pub items : Map Bool
  pub during : ReadinessCache → ReadinessCache
  pub ended : ℕ
  pub ttl : ℕ

-- What the loop comes to. It still waits where its wake-ups run out.
pub data Readied : Type 0 where
  still_waiting cancelled : Readied
  readied : ReadinessResult → Readied

unfoldable pub run_probe : Probing → ℕ → ReadinessCache → Readied × ReadinessCache
run_probe p generation c = (
  readied (check_readiness p.items),
  finish_probe p.ended p.ttl generation (check_readiness p.items) (p.during c),
)

unfoldable pub after_turn :
    Probing → Turn × ReadinessCache → Readied × ReadinessCache → Readied × ReadinessCache
unfolding run_probe
after_turn p (cached r, c) waited = (readied r, c)
after_turn p (waits, c) waited = waited
after_turn p (probes generation, c) waited = run_probe p generation c

unfoldable pub cached_readiness :
    Probing → ℕ → List Wakeup → ReadinessCache → Readied × ReadinessCache
unfolding take_turn after_turn
cached_readiness p now [] c = after_turn p (take_turn now c) (still_waiting, c)
cached_readiness p now (context_done ∷ wakeups) c = after_turn p (take_turn now c) (cancelled, c)
cached_readiness p now (probe_done later others ∷ wakeups) c =
    let waited = cached_readiness p later wakeups (others c) in
    after_turn p (take_turn now c) waited

-- The code, the state and the providers of the answer.
pub data Health : Type 0 where
  check_cancelled : Health
  health : ℕ → String → Map String → Health

unfoldable pub report : ReadinessResult → Health
report r = if r.ready then health 200 "ready" r.status else health 503 "not_ready" r.status

abbrev pub answer_of : Readied → Option Health
answer_of still_waiting = none
answer_of cancelled = some check_cancelled
answer_of (readied r) = some (report r)

unfoldable pub ready : Probing → ℕ → List Wakeup → ReadinessCache → Option Health
unfolding cached_readiness report
ready p now wakeups c = answer_of (cached_readiness p now wakeups c).0
