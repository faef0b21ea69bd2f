-- ===== src/Readiness/Tests.antt =====
-- Probes and turns at small inputs.
use shepard.Base.{◌≡◌, refl, Bool, true, false, some, List, [], ◌∷◌, Map, lookup, insert}
use shepard.Readiness.{
  ReadinessResult, ReadinessCache, new_readiness_cache, clear, take_turn, finish_probe, probes,
  cached, waits, check_readiness, clone_readiness_result,
}
use shepard.Readiness.Freshness.{
  System, Reach, here, next, begins, reloads, ends, idle, IsFresh, Reach-IsFresh,
}
use shepard.Readiness.Handling.{Probing, Wakeup, probe_done, ready, health}
use shepard.Readiness.Honesty.{IsSound, IsTold, clear-KeepsHonest, no_result-IsHonest, ready-IsTold}

abbrev items : Map Bool
items = ("near", false) ∷ ("far", true) ∷ []

abbrev report : ReadinessResult
report = record { status = ("near", "unavailable") ∷ ("far", "ok") ∷ []; ready = true }

items_reported : check_readiness items ≡ report
unfolding check_readiness insert
items_reported = refl

abbrev probing : ReadinessCache
probing = record new_readiness_cache { inflight = true }

first_probes : take_turn 5 new_readiness_cache ≡ (probes 0, probing)
unfolding take_turn new_readiness_cache
first_probes = refl

second_waits : take_turn 6 probing ≡ (waits, probing)
unfolding take_turn new_readiness_cache
second_waits = refl

third_reads : (take_turn 8 (finish_probe 7 3 0 report probing)).0 ≡ cached report
unfolding take_turn finish_probe clone_readiness_result new_readiness_cache insert
third_reads = refl

late_result_dropped : finish_probe 7 3 0 report (clear probing) ≡ clear new_readiness_cache
unfolding finish_probe clear new_readiness_cache
late_result_dropped = refl

-- A probe that begins before a reload and ends after it.
abbrev begun : System
begun = record idle { cache = probing; running = record { generation = 0; begun = 0 } ∷ [] }

abbrev reloaded : System
reloaded = record begun { cache = clear probing; clears = 1 }

abbrev ended : System
ended = record reloaded { cache = finish_probe 7 3 0 report (clear probing); running = [] }

ended-Reach : Reach idle ended
unfolding take_turn new_readiness_cache clear
ended-Reach =
    next (next (next here (begins idle 5 0 probing first_probes)) (reloads begun))
      (ends reloaded [] (record { generation = 0; begun = 0 }) [] 7 3 report refl)

Reach-IsFresh_example : IsFresh ended
Reach-IsFresh_example = Reach-IsFresh ended-Reach

abbrev far_is_up : Probing
far_is_up = record { items = items; during = λ c. c; ended = 9; ttl = 3 }

-- The wait for another's probe ends with a reload in between, and the request probes itself.
abbrev reloaded_meanwhile : List Wakeup
reloaded_meanwhile = probe_done 6 (λ c. clear (record c { inflight = false })) ∷ []

far_reported :
    ready far_is_up 5 reloaded_meanwhile probing ≡ some (health 200 "ready" report.status)
unfolding ready take_turn clear new_readiness_cache check_readiness insert
far_reported = refl

far_is_up-IsSound : IsSound far_is_up reloaded_meanwhile
unfolding lookup
far_is_up-IsSound = record {
  distinct = (refl, (refl, tt));
  during = λ c v. v;
  others = ((λ c v. clear-KeepsHonest (record c { inflight = false }) v), tt);
}

ready-IsTold_example : IsTold (ready far_is_up 5 reloaded_meanwhile probing)
unfolding new_readiness_cache
ready-IsTold_example =
    ready-IsTold far_is_up 5 reloaded_meanwhile probing far_is_up-IsSound no_result-IsHonest
