-- ===== src/Failover/Retry.antt =====
-- One target of `proxy`'s loop: provider admission around each attempt, and the decision between
-- a retry, the next target and a response.
-- What the code does not decide (the provider's answers, the contexts, the other goroutines) is an
-- `Attempt`, a value for each target and attempt.
use shepard.Base.{
  ℕ, zero, suc, ◌+◌, String, Bool, not, ◌&&◌, ◌||◌, Option, none, some, List, [], ◌∷◌, ◌++◌, ℤ, pos,
  is_pos, ltb_ℤ, ◌==◌, nat_eq, if◌then◌else◌, true,
}
use shepard.Base.Text.{◌<>◌}
use shepard.Config.Types.{ProviderConfig}
use shepard.Queue.{Round, Admission}
use shepard.Limiter.{AdmissionScope, LimitStore, release}
use shepard.Admission.{Shared, admit_with_queue}
use shepard.Headers.{Header}

pub record Response : Type 0 where
  pub status : ℕ
  pub header : Header
  pub body : String

-- What `doUpstreamRequest` returns.
pub data Reply : Type 0 where
  failed : String → Reply
  responded : Response → Reply

-- The environment of one attempt: the wake-ups of its wait for admission, the provider's reply,
-- what the contexts say when the request fails, and what happens during the backoff.
pub record Attempt : Type 0 where
  pub rounds : List (Round (ℕ × LimitStore))
  pub during_request : Shared → Shared
  pub reply : Reply
  pub ctx_ended : Bool
  pub timed_out : Bool
  pub during_backoff : Shared → Shared
  pub backoff_ended : Bool

-- One call of `doUpstreamRequest`: the position of its target, its number there, and what came back.
-- The call may fail before anything is sent.
pub record Sent : Type 0 where
  pub target : ℕ
  pub attempt : ℕ
  pub provider : String
  pub body : String
  pub reply : Reply

-- The variables of the loop. The counters are what this request adds to the shared metrics.
pub record Progress : Type 0 where
  pub shared : Shared
  pub queue_waits : ℕ
  pub upstream_requests : ℕ
  pub upstream_errors : ℕ
  pub provider_limited : Bool
  pub last_err : Option String
  pub sent : List Sent

unfoldable pub retryable_status : ℕ → Bool
retryable_status s =
    s == 408 || s == 404 || s == 429 || s == 500 || s == 502 || s == 503 || s == 504

unfoldable pub should_retry_same : ℤ → ℕ → ℕ → Bool
unfolding retryable_status
should_retry_same retries attempt status =
    retryable_status status
    && not (status == 429)
    && not (status == 404)
    && ltb_ℤ (pos attempt) retries

unfoldable pub should_failover : ℤ → ℕ → Bool → ℕ → Bool
unfolding should_retry_same
should_failover retries attempt has_another status =
    retryable_status status && not (should_retry_same retries attempt status) && has_another

-- How an attempt leaves the inner loop: `continue`, `continue targetLoop`, `break targetLoop`
-- without a response or with one, or not at all while it waits for admission.
pub data Flow : Type 0 where
  again next_target stopped waiting : Progress → Flow
  selected : Progress → Sent → Response → List AdmissionScope → Flow

unfoldable pub give_back : List AdmissionScope → Progress → Progress
give_back held p = record p { shared = (p.shared.0, (p.shared.1.0, release held p.shared.1.1)) }

abbrev pub back_off : Attempt → Progress → Progress
back_off env p = record p { shared = env.during_backoff p.shared }

-- `waitForRetry`: the timer, or the end of the context.
unfoldable pub wait_for_retry : Attempt → Progress → Flow
wait_for_retry env p =
    if env.backoff_ended then again (back_off env p) else stopped (back_off env p)

abbrev pub send : Attempt → Sent → Progress → Progress
send env sent p = record p {
  shared = env.during_request p.shared;
  upstream_requests = p.upstream_requests + 1;
  sent = p.sent ++ sent ∷ [];
}

abbrev pub count_wait : Bool → ℕ → ℕ
count_wait queued n = if queued then n + 1 else n

abbrev pub provider_scope : ProviderConfig → String → AdmissionScope
provider_scope provider name = record { key = "provider:" <> name; limits = provider.limits }

-- The loop goes on after a `continue`, and passes on any other way to leave it.
abbrev pub resume : (Progress → Flow) → Flow → Flow
resume next (again p) = next p
resume next (next_target p) = next_target p
resume next (stopped p) = stopped p
resume next (waiting p) = waiting p
resume next (selected p sent response held) = selected p sent response held

-- One pass of the loop body at a target, from its admission's release function on.
module _ (retries : ℤ) (has_another : Bool) (provider : ProviderConfig) where
  unfoldable pub after_error : Attempt → ℕ → String → List AdmissionScope → Progress → Flow
  unfolding give_back wait_for_retry
  after_error env attempt error held p =
      let failed_once = record (give_back held p) {
        upstream_errors = p.upstream_errors + 1;
        last_err = some error;
      } in
      if env.ctx_ended
      then stopped failed_once
      else if is_pos provider.request_timeout && env.timed_out
      then next_target failed_once
      else if ltb_ℤ (pos attempt) retries
      then wait_for_retry env failed_once
      else next_target failed_once

  unfoldable pub after_response : Attempt → Sent → Response → List AdmissionScope → Progress → Flow
  unfolding should_failover give_back wait_for_retry
  after_response env sent response held p =
      if should_retry_same retries sent.attempt response.status
      then wait_for_retry env (give_back held p)
      else if should_failover retries sent.attempt has_another response.status
      then next_target (give_back held p)
      else selected p sent response held

  unfoldable pub after_reply : Attempt → Sent → List AdmissionScope → Progress → Reply → Flow
  unfolding after_error after_response
  after_reply env sent held p (failed error) = after_error env sent.attempt error held p
  after_reply env sent held p (responded response) = after_response env sent response held p

  unfoldable pub after_wait : Attempt → Sent → Progress → Option (List AdmissionScope) → Flow
  unfolding after_reply
  after_wait env sent p none = next_target (record p { provider_limited = true })
  after_wait env sent p (some held) = after_reply env sent held (send env sent p) env.reply

  unfoldable pub after_admission :
      Attempt → Sent → Progress → Option (Admission (List AdmissionScope)) × Shared → Flow
  unfolding after_wait
  after_admission env sent p (none, w) = waiting (record p { shared = w })
  after_admission env sent p (some a, w) =
      after_wait env sent (record p { shared = w; queue_waits = count_wait a.queued p.queue_waits })
        a.release

  unfoldable pub try_once : Attempt → Sent → Progress → Flow
  unfolding after_admission
  try_once env sent p =
      after_admission env sent p
        (admit_with_queue (provider_scope provider sent.provider ∷ []) env.rounds p.shared)

  -- The inner `for` loop, over the rounds that are left. It ends without a `break` only if there
  -- is no round at all.
  unfoldable pub attempts : (ℕ → Attempt) → (ℕ → Reply → Sent) → ℕ → ℕ → Progress → Flow
  unfolding try_once
  attempts env sent_at zero attempt p = next_target p
  attempts env sent_at (suc left) attempt p =
      resume (attempts env sent_at left (attempt + 1))
        (try_once (env attempt) (sent_at attempt (env attempt).reply) p)
