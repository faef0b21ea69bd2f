-- ===== src/Failover/Delivery.antt =====
-- Passes of the inner loop in which nothing ends the request: it gets a response that is relayed
-- wherever it comes, or goes on to the next target.
use shepard.Base.{
  ℕ, zero, suc, ◌+◌, ◌≡◌, String, Bool, true, false, Option, none, some, List, ℤ, pos, ltb_ℤ,
  is_pos, ◌&&◌, arith, inl, inr,
}
use shepard.Config.Types.{ProviderConfig}
use shepard.Queue.{Admission}
use shepard.Limiter.{AdmissionScope}
use shepard.Admission.{Shared}
use shepard.Failover.Retry.{
  Reply, failed, responded, Attempt, Sent, Progress, Flow, again, next_target, stopped, waiting,
  selected, after_error, after_response, after_reply, after_wait, after_admission, try_once,
  attempts, resume, wait_for_retry, should_retry_same, should_failover, give_back,
}
use shepard.Failover.Passes.{IsTransient}
use shepard.Failover.Targets.{attempt_count}
use shepard.Failover.Conditions.{
  given_back, Takes, IsOpen, IsGood, Succeeds, IsSelected, GoesOn, IsAgain, more_attempts,
}

module _ (Fit : Shared → Type 0) (retries : ℤ) (has_another : Bool)
    (provider : ProviderConfig) where
  -- What is shared when the request's reply is there, as its slots are given back.
  abbrev Returns : Attempt → List AdmissionScope → Progress → Type 0
  Returns env held q =
      Fit (given_back held q.shared) × Fit (env.during_backoff (given_back held q.shared))

  -- What one pass comes to, over an admission that was given.
  after_admission-lift :
      (P : Flow → Type 0) (env : Attempt) (sent : Sent) (p : Progress)
      (result : Option (Admission (List AdmissionScope)) × Shared)
      → Takes Fit env result
      → ((held : List AdmissionScope) (q : Progress)
          → Returns env held q
          → P (after_reply retries has_another provider env sent held q env.reply))
      → P (after_admission retries has_another provider env sent p result)
  unfolding after_admission
  after_admission-lift P env sent p (none, w) a h = absurd a
  after_admission-lift P env sent p (some a, w) (held, e, back, fits) h =
      rw (e, after_wait) (h held _ (back, fits))

  try_once-lift :
      (P : Flow → Type 0) (env : Attempt) (sent : Sent) (p : Progress)
      → IsOpen Fit provider sent.provider env
      → Fit p.shared
      → ((held : List AdmissionScope) (q : Progress)
          → Returns env held q
          → P (after_reply retries has_another provider env sent held q env.reply))
      → P (try_once retries has_another provider env sent p)
  unfolding try_once
  try_once-lift P env sent p o f h = after_admission-lift P env sent p _ (o.granted p.shared f) h

  after_reply-GoesOn :
      (env : Attempt) (sent : Sent) (held : List AdmissionScope) (q : Progress) (reply : Reply)
      → Returns env held q
      → env.ctx_ended ≡ false
      → env.backoff_ended ≡ true
      → has_another ≡ true
      → GoesOn Fit (after_reply retries has_another provider env sent held q reply)
  unfolding after_reply after_error after_response wait_for_retry should_failover should_retry_same
      give_back
  after_reply-GoesOn env sent held q (failed error) (f, g) e b a = ground arith
  after_reply-GoesOn env sent held q (responded response) (f, g) e b a = ground arith

  after_reply-IsSelected :
      (env : Attempt) (sent : Sent) (held : List AdmissionScope) (q : Progress) (reply : Reply)
      → IsGood reply
      → IsSelected (after_reply retries has_another provider env sent held q reply)
  unfolding after_reply after_response should_failover should_retry_same
  after_reply-IsSelected env sent held q (failed error) g = absurd g
  after_reply-IsSelected env sent held q (responded response) g = ground arith

  after_reply-IsAgain :
      (env : Attempt) (sent : Sent) (held : List AdmissionScope) (q : Progress) (reply : Reply)
      → Returns env held q
      → env.ctx_ended ≡ false
      → env.backoff_ended ≡ true
      → ltb_ℤ (pos sent.attempt) retries ≡ true
      → (is_pos provider.request_timeout && env.timed_out) ≡ false
      → IsTransient reply
      → IsAgain Fit (after_reply retries has_another provider env sent held q reply)
  unfolding after_reply after_error after_response wait_for_retry should_retry_same give_back
  after_reply-IsAgain env sent held q (failed error) (f, g) e b l t i = ground arith
  after_reply-IsAgain env sent held q (responded response) (f, g) e b l t i = ground arith

  resume-IsSelected :
      (next : Progress → Flow) (f : Flow)
      → IsAgain Fit f
      → ((p : Progress) → Fit p.shared → IsSelected (next p))
      → IsSelected (resume next f)
  resume-IsSelected next (again p) a h = h p a
  resume-IsSelected next (next_target p) a h = absurd a
  resume-IsSelected next (stopped p) a h = absurd a
  resume-IsSelected next (waiting p) a h = absurd a
  resume-IsSelected next (selected p sent response held) a h = absurd a

  resume-kept : (next : Progress → Flow) (f : Flow) → IsSelected f → IsSelected (resume next f)
  resume-kept next (again p) s = absurd s
  resume-kept next (next_target p) s = absurd s
  resume-kept next (stopped p) s = absurd s
  resume-kept next (waiting p) s = absurd s
  resume-kept next (selected p sent response held) s = s

  resume-GoesOn :
      (next : Progress → Flow) (f : Flow)
      → ((p : Progress) → Fit p.shared → GoesOn Fit (next p))
      → GoesOn Fit f
      → GoesOn Fit (resume next f)
  resume-GoesOn next (again p) h g = h p g
  resume-GoesOn next (next_target p) h g = g
  resume-GoesOn next (stopped p) h g = g
  resume-GoesOn next (waiting p) h g = g
  resume-GoesOn next (selected p sent response held) h g = g

  module _ (name : String) (env : ℕ → Attempt) (sent_at : ℕ → Reply → Sent)
      (at_provider : (j : ℕ) (r : Reply) → (sent_at j r).provider ≡ name)
      (numbered : (j : ℕ) (r : Reply) → (sent_at j r).attempt ≡ j)
      (is_open : (j : ℕ) → IsOpen Fit provider name (env j)) where
    sent_now : ℕ → Sent
    sent_now j = sent_at j (env j).reply

    at_sent : (j : ℕ) → IsOpen Fit provider (sent_now j).provider (env j)
    unfolding sent_now
    at_sent j = rw (at_provider j (env j).reply) (is_open j)

    pub attempts-GoesOn :
        (left attempt : ℕ) (p : Progress)
        → has_another ≡ true
        → Fit p.shared
        → GoesOn Fit (attempts retries has_another provider env sent_at left attempt p)
    unfolding attempts sent_now
    attempts-GoesOn zero attempt p a f = f
    attempts-GoesOn (suc left) attempt p a f =
        resume-GoesOn _ _ (λ q g. attempts-GoesOn left (attempt + 1) q a g)
          (try_once-lift (GoesOn Fit) (env attempt) (sent_now attempt) p (at_sent attempt) f
            (λ held q back.
              after_reply-GoesOn (env attempt) (sent_now attempt) held q (env attempt).reply back
                (is_open attempt).lasting (is_open attempt).backs_off a))

    pub attempts-IsSelected :
        (left attempt : ℕ) (p : Progress)
        → attempt + left ≡ attempt_count retries
        → Succeeds provider env left attempt
        → Fit p.shared
        → IsSelected (attempts retries has_another provider env sent_at left attempt p)
    unfolding attempts sent_now
    attempts-IsSelected zero attempt p e s f = absurd s
    attempts-IsSelected (suc left) attempt p e (inl good) f = resume-kept _ _ (
        try_once-lift IsSelected (env attempt) (sent_now attempt) p (at_sent attempt) f
          (λ held q back.
            after_reply-IsSelected (env attempt) (sent_now attempt) held q (env attempt).reply
              good))
    attempts-IsSelected (suc left) attempt p e (inr (passing, rest)) f =
        let more : ltb_ℤ (pos (sent_now attempt).attempt) retries ≡ true =
          rw (numbered attempt (env attempt).reply)
            (more_attempts retries provider env left attempt e rest) in
        resume-IsSelected _ _
          (try_once-lift (IsAgain Fit) (env attempt) (sent_now attempt) p (at_sent attempt) f
            (λ held q back.
              after_reply-IsAgain (env attempt) (sent_now attempt) held q (env attempt).reply back
                (is_open attempt).lasting (is_open attempt).backs_off more passing.in_time
                passing.transient))
          (λ q g. attempts-IsSelected left (attempt + 1) q (omega (arith, e)) rest g)
