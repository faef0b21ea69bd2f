-- ===== src/Failover/Ending.antt =====
-- The target loop ends: if each wait for admission does, it comes to an outcome.
use shepard.Base.{
  ℕ, zero, suc, ◌+◌, ◌≡◌, String, Bool, true, false, Option, none, some, List, [], ◌∷◌, Map, lookup,
  ℤ, pos, ltb_ℤ, is_pos, ◌&&◌, arith, Option-cases, inl, inr, if◌then◌else◌,
}
use shepard.Config.Types.{
  ProviderConfig, TargetConfig, ModelConfig, resolved_targets, provider_or_zero,
}
use shepard.Queue.{Admission}
use shepard.Queue.Returns.{HasEnd, wait-returns}
use shepard.Limiter.{AdmissionScope}
use shepard.Admission.{Shared, try_admit, admit_with_queue}
use shepard.Payload.{Payload}
use shepard.Failover.Retry.{
  Reply, failed, responded, Attempt, Sent, Progress, Flow, again, next_target, stopped, waiting,
  selected, after_error, after_response, after_reply, after_wait, after_admission, try_once,
  attempts, resume, wait_for_retry, send, should_retry_same, should_failover, provider_scope,
}
use shepard.Failover.Targets.{
  Outcome, still_waiting, advance, target_body, try_target, try_targets, run_targets, has_more,
  sent_for, attempt_count, start,
}

-- The context of every wait ends in one of its rounds.
abbrev pub HasEnds : (ℕ → ℕ → Attempt) → Type 0
HasEnds env = (i j : ℕ) → HasEnd (env i j).rounds

abbrev pub IsOver : Outcome → Type 0
IsOver (still_waiting p) = ⊥
IsOver o = Unit {0}

abbrev GoesOn : Flow → Type 0
GoesOn (waiting p) = ⊥
GoesOn f = Unit {0}

pub admit_with_queue-returns :
    (scopes : List AdmissionScope) (env : Attempt) (w : Shared)
    → HasEnd env.rounds
    → (a : Admission (List AdmissionScope)) × ((admit_with_queue scopes env.rounds w).0 ≡ some a)
unfolding admit_with_queue
admit_with_queue-returns scopes env w h = wait-returns (try_admit scopes) env.rounds w.0 w.1 h

if-GoesOn : (b : Bool) (f g : Flow) → GoesOn f → GoesOn g → GoesOn (if b then f else g)
if-GoesOn true f g h k = h
if-GoesOn false f g h k = k

wait_for_retry-GoesOn : (env : Attempt) (p : Progress) → GoesOn (wait_for_retry env p)
unfolding wait_for_retry
wait_for_retry-GoesOn env p = if-GoesOn env.backoff_ended _ _ tt tt

module _ (retries : ℤ) (has_another : Bool) (provider : ProviderConfig) where
  after_reply-GoesOn :
      (env : Attempt) (sent : Sent) (held : List AdmissionScope) (p : Progress) (reply : Reply)
      → GoesOn (after_reply retries has_another provider env sent held p reply)
  unfolding after_reply after_error after_response
  after_reply-GoesOn env sent held p (failed error) = if-GoesOn env.ctx_ended _ _ tt (
      if-GoesOn (is_pos provider.request_timeout && env.timed_out) _ _ tt
        (if-GoesOn (ltb_ℤ (pos sent.attempt) retries) _ _ (wait_for_retry-GoesOn env _) tt))
  after_reply-GoesOn env sent held p (responded response) =
      if-GoesOn (should_retry_same retries sent.attempt response.status) _ _
        (wait_for_retry-GoesOn env _)
        (if-GoesOn (should_failover retries sent.attempt has_another response.status) _ _ tt tt)

  after_wait-GoesOn :
      (env : Attempt) (sent : Sent) (p : Progress) (r : Option (List AdmissionScope))
      → GoesOn (after_wait retries has_another provider env sent p r)
  unfolding after_wait
  after_wait-GoesOn env sent p none = tt
  after_wait-GoesOn env sent p (some held) =
      after_reply-GoesOn env sent held (send env sent p) env.reply

  after_admission-GoesOn :
      (env : Attempt) (sent : Sent) (p : Progress)
      (result : Option (Admission (List AdmissionScope)) × Shared)
      (a : Admission (List AdmissionScope))
      → result.0 ≡ some a
      → GoesOn (after_admission retries has_another provider env sent p result)
  unfolding after_admission
  after_admission-GoesOn env sent p (none, w) a e = absurd (ground (arith, e))
  after_admission-GoesOn env sent p (some b, w) a e = after_wait-GoesOn env sent _ b.release

  try_once-GoesOn :
      (env : Attempt) (sent : Sent) (p : Progress)
      → HasEnd env.rounds
      → GoesOn (try_once retries has_another provider env sent p)
  unfolding try_once
  try_once-GoesOn env sent p h =
      let (a, e) =
        admit_with_queue-returns (provider_scope provider sent.provider ∷ []) env p.shared h in
      after_admission-GoesOn env sent p _ a e

  resume-GoesOn :
      (next : Progress → Flow) (f : Flow)
      → ((p : Progress) → GoesOn (next p))
      → GoesOn f
      → GoesOn (resume next f)
  resume-GoesOn next (again p) h g = h p
  resume-GoesOn next (next_target p) h g = tt
  resume-GoesOn next (stopped p) h g = tt
  resume-GoesOn next (waiting p) h g = g
  resume-GoesOn next (selected p sent response held) h g = tt

  attempts-GoesOn :
      (env : ℕ → Attempt) (sent_at : ℕ → Reply → Sent) (left attempt : ℕ) (p : Progress)
      → ((j : ℕ) → HasEnd (env j).rounds)
      → GoesOn (attempts retries has_another provider env sent_at left attempt p)
  unfolding attempts
  attempts-GoesOn env sent_at zero attempt p h = tt
  attempts-GoesOn env sent_at (suc left) attempt p h =
      resume-GoesOn _ _ (λ q. attempts-GoesOn env sent_at left (attempt + 1) q h)
        (try_once-GoesOn (env attempt) (sent_at attempt (env attempt).reply) p (h attempt))

advance-IsOver :
    (next : Progress → Outcome) (f : Flow)
    → ((p : Progress) → IsOver (next p))
    → GoesOn f
    → IsOver (advance next f)
advance-IsOver next (again p) h g = h p
advance-IsOver next (next_target p) h g = h p
advance-IsOver next (stopped p) h g = tt
advance-IsOver next (waiting p) h g = g
advance-IsOver next (selected p sent response held) h g = tt

module _ (marshal : Payload → Option String) (providers : Map ProviderConfig) (payload : Payload)
    (endpoint : String) (retries : ℤ) (env : ℕ → ℕ → Attempt) (h : HasEnds env) where
  try_targets-IsOver :
      (index : ℕ) (targets : List TargetConfig) (p : Progress)
      → IsOver (try_targets marshal providers payload endpoint retries env index targets p)
  unfolding try_targets try_target
  try_targets-IsOver index [] p = tt
  try_targets-IsOver index (t ∷ targets) p =
      elim (Option-cases (target_body marshal providers payload endpoint t)) [
        | inl bad ↦ rw (bad, try_targets) tt
        | inr (body, good) ↦
            rw (good, try_targets)
              (advance-IsOver _ _ (λ q. try_targets-IsOver (index + 1) targets q)
                (attempts-GoesOn retries (has_more targets)
                  (provider_or_zero (lookup t.provider providers)) (env index)
                  (sent_for index t body) (attempt_count retries) 0 p (h index)))
      ]

-- The loop comes to an outcome if the context of each of its waits ends.
pub run_targets-IsOver :
    (marshal : Payload → Option String) (providers : Map ProviderConfig) (payload : Payload)
    (endpoint : String) (model : ModelConfig) (env : ℕ → ℕ → Attempt) (w : Shared)
    → HasEnds env
    → IsOver (run_targets marshal providers payload endpoint model env w)
unfolding run_targets
run_targets-IsOver marshal providers payload endpoint model env w h =
    try_targets-IsOver marshal providers payload endpoint model.retries env h 0
      (resolved_targets model) (start w)
