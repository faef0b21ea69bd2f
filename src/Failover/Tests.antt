-- ===== src/Failover/Tests.antt =====
-- Runs of the target loop, and its theorems at small inputs.
use shepard.Base.{
  ℕ, zero, suc, ◌*◌, ◌≡◌, refl, String, true, false, Option, some, List, [], ◌∷◌, Map, lookup,
  insert, erase, pos, length,
}
use shepard.Config.Types.{zero_provider, Limits, ProviderConfig, ModelConfig, resolved_targets}
use shepard.Queue.{wait, enter}
use shepard.Limiter.{admit, release}
use shepard.Admission.{Shared, admit_with_queue}
use shepard.Admission.Balance.{in_use_of}
use shepard.Payload.{Payload}
use shepard.Failover.Retry.{Reply, responded, Attempt, Sent}
use shepard.Failover.Targets.{Outcome, answered, run_targets, attempt_count}
use shepard.Failover.Rules.{OutcomeSat}
use shepard.Failover.Slots.{IsQuiet, Uses, Keeps, run_targets-in_use}
use shepard.Failover.Counters.{IsCounted, run_targets-IsCounted}
use shepard.Failover.Order.{IsOrdered, Ordered, IsRelayed, run_targets-Ordered}

abbrev limits : ℕ → Limits
limits slots = record { requests_per_minute = pos 0; burst = pos 0; max_concurrent = pos slots }

abbrev providers : Map ProviderConfig
providers =
    ("near", record zero_provider { limits = limits 1 })
    ∷ ("far", record zero_provider { limits = limits 2 })
    ∷ []

abbrev model : ModelConfig
model = record {
  provider = "";
  model = "";
  targets =
      record { provider = "near"; model = "m" } ∷ record { provider = "far"; model = "n" } ∷ [];
  retries = pos 1;
  limits = limits 0;
  overrides = [];
  prepend_system_prompt = "";
  append_system_prompt = "";
}

abbrev attempt : Reply → Attempt
attempt reply = record {
  rounds = [];
  during_request = λ w. w;
  reply = reply;
  ctx_ended = false;
  timed_out = false;
  during_backoff = λ w. w;
  backoff_ended = true;
}

abbrev answer : ℕ → Reply
answer status = responded (record { status = status; header = []; body = "" })

-- The near target is overloaded, and the far one answers.
abbrev overloaded : ℕ → ℕ → Attempt
overloaded zero j = attempt (answer 503)
overloaded (suc i) j = attempt (answer 200)

abbrev fresh : Shared
fresh = (record { waiting = 0; max = pos 0 }, (0, record { buckets = []; concurrent = [] }))

abbrev encode : Payload → Option String
encode p = some "{}"

abbrev positions : List Sent → List (ℕ × ℕ)
positions [] = []
positions (s ∷ log) = (s.target, s.attempt) ∷ positions log

abbrev log_of : Outcome → List (ℕ × ℕ)
log_of (answered p s r held) = positions p.sent
log_of _ = []

-- Two attempts at the first target, then one at the second.
overloaded_log :
    log_of (run_targets encode providers [] "/v1/chat/completions" model overloaded fresh)
    ≡ (0, 0) ∷ (0, 1) ∷ (1, 0) ∷ []
unfolding run_targets admit_with_queue wait enter admit release lookup insert erase resolved_targets
overloaded_log = refl

idle_attempt : (reply : Reply) (key : String) → IsQuiet key (attempt reply)
idle_attempt reply key = record { waits = tt; requests = λ w. refl; backs_off = λ w. refl }

overloaded-IsQuiet : (key : String) (i j : ℕ) → IsQuiet key (overloaded i j)
overloaded-IsQuiet key zero j = idle_attempt (answer 503) key
overloaded-IsQuiet key (suc i) j = idle_attempt (answer 200) key

run_targets-Ordered_example :
    OutcomeSat IsOrdered
      (λ q s response held.
        Ordered (some s) q.sent
        × IsRelayed (length (resolved_targets model)) model.retries s response)
      (run_targets encode providers [] "/v1/chat/completions" model overloaded fresh)
run_targets-Ordered_example =
    run_targets-Ordered encode providers [] "/v1/chat/completions" model overloaded fresh

run_targets-in_use_example :
    OutcomeSat
      (Uses "provider:near" (in_use_of "provider:near" fresh))
      (Keeps "provider:near" (in_use_of "provider:near" fresh))
      (run_targets encode providers [] "/v1/chat/completions" model overloaded fresh)
run_targets-in_use_example =
    run_targets-in_use "provider:near" encode providers [] "/v1/chat/completions" model overloaded
      fresh (overloaded-IsQuiet "provider:near")

run_targets-IsCounted_example :
    OutcomeSat
      (IsCounted (length (resolved_targets model) * attempt_count model.retries))
      (λ q _ _ _. IsCounted (length (resolved_targets model) * attempt_count model.retries) q)
      (run_targets encode providers [] "/v1/chat/completions" model overloaded fresh)
run_targets-IsCounted_example =
    run_targets-IsCounted encode providers [] "/v1/chat/completions" model overloaded fresh
