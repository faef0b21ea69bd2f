-- ===== src/Metrics/Tests.antt =====
-- The counters after two requests, one of them refused.
use shepard.Base.{ℕ, ◌≡◌, refl, List, [], ◌∷◌, lookup, insert, erase}
use shepard.Queue.{wait}
use shepard.Limiter.{admit, release}
use shepard.Admission.{admit_with_queue}
use shepard.Headers.{copy_response_headers}
use shepard.Buffers.{write_tail}
use shepard.Payload.{apply_system_prompt}
use shepard.Usage.{record_entry}
use shepard.Config.Types.{resolved_targets}
use shepard.Failover.Targets.{run_targets}
use shepard.Proxy.{proxy}
use shepard.Proxy.State.{Metrics}
use shepard.Proxy.Samples.{config, env, codec, request, idle}
use shepard.Metrics.Balance.{Call, run_calls}

abbrev call_with : List ℕ → Call
call_with body = record {
  config = config;
  env = env;
  client = "ip:1";
  request = request;
  body = body;
}

abbrev two_calls : List Call
two_calls = call_with (1 ∷ []) ∷ call_with (1 ∷ 2 ∷ []) ∷ []

abbrev outcome : Metrics → ℕ × ℕ × ℕ × ℕ
outcome m = (m.requests, m.completed, m.failed, m.active)

one_completed : outcome (run_calls codec two_calls idle).metrics ≡ (2, 1, 1, 0)
unfolding run_calls proxy admit_with_queue wait admit lookup insert apply_system_prompt run_targets
    resolved_targets copy_response_headers record_entry write_tail release erase
one_completed = refl
