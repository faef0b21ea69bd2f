-- ===== src/Failover/Slots.antt =====
-- Provider slots over the target loop: every attempt gives back what it took, but for the one whose
-- response is relayed.
use shepard.Base.{
  ℕ, ◌+◌, ◌≡◌, refl, String, Bool, Option, none, some, List, [], ◌∷◌, Map, lookup, All, arith, ℤ,
  ◌∙◌,
}
use shepard.Config.Types.{provider_or_zero, ProviderConfig, ModelConfig, resolved_targets}
use shepard.Queue.{Admission}
use shepard.Limiter.{AdmissionScope, release}
use shepard.Limiter.Holds.{demand, in_use-release}
use shepard.Admission.{Shared}
use shepard.Admission.Balance.{in_use_of, taken, taken_by, IsNeutral, in_use-admit_with_queue}
use shepard.Payload.{Payload}
use shepard.Failover.Retry.{
  Response, Reply, failed, responded, Attempt, Sent, Progress, Flow, wait_for_retry, after_reply,
  after_admission, try_once, after_wait, provider_scope, send,
}
use shepard.Failover.Rules.{FlowSat, OutcomeSat, try_target-FlowSat, try_targets-OutcomeSat}
use shepard.Failover.Targets.{run_targets, sent_for, has_more, start}

module _ (key : String) where
  -- The other goroutines net to nothing at the key during an attempt.
  pub record IsQuiet (env : Attempt) : Type 0 where
    pub waits : All (λ round. IsNeutral key round.others) env.rounds
    pub requests : IsNeutral key env.during_request
    pub backs_off : IsNeutral key env.during_backoff

  -- The units in use are those of `base`, and what a selected response holds.
  abbrev pub Uses : ℕ → Progress → Type 0
  Uses base p = in_use_of key p.shared ≡ base

  abbrev pub Keeps : ℕ → Progress → Sent → Response → List AdmissionScope → Type 0
  Keeps base p sent response held = in_use_of key p.shared ≡ base + demand key held

  abbrev FlowHolds : ℕ → Flow → Type 0
  FlowHolds base = FlowSat (Uses base) (Uses base) (Uses base) (Keeps base)

  wait_for_retry-FlowHolds :
      (base : ℕ) (env : Attempt) (p : Progress)
      → IsQuiet env
      → in_use_of key p.shared ≡ base
      → FlowHolds base (wait_for_retry env p)
  unfolding wait_for_retry
  wait_for_retry-FlowHolds base env p quiet e = ground (arith, quiet.backs_off p.shared)

  module _ (retries : ℤ) (has_another : Bool) (provider : ProviderConfig) where
    after_reply-FlowHolds :
        (base : ℕ) (env : Attempt) (sent : Sent) (held : List AdmissionScope) (p : Progress)
        (reply : Reply)
        → IsQuiet env
        → in_use_of key p.shared ≡ base + demand key held
        → FlowHolds base (after_reply retries has_another provider env sent held p reply)
    unfolding after_reply
    after_reply-FlowHolds base env sent held p (failed error) quiet e = ground (
      arith,
      in_use-release key held p.shared.1.1,
      quiet.backs_off (p.shared.0, (p.shared.1.0, release held p.shared.1.1)),
    )
    after_reply-FlowHolds base env sent held p (responded response) quiet e = ground (
      arith,
      in_use-release key held p.shared.1.1,
      quiet.backs_off (p.shared.0, (p.shared.1.0, release held p.shared.1.1)),
    )

    after_wait-FlowHolds :
        (base : ℕ) (env : Attempt) (sent : Sent) (p : Progress) (r : Option (List AdmissionScope))
        → IsQuiet env
        → in_use_of key p.shared ≡ base + taken key r
        → FlowHolds base (after_wait retries has_another provider env sent p r)
    unfolding after_wait
    after_wait-FlowHolds base env sent p none quiet e = omega arith
    after_wait-FlowHolds base env sent p (some held) quiet e =
        after_reply-FlowHolds base env sent held (send env sent p) env.reply quiet
          (quiet.requests p.shared ∙ e)

    after_admission-FlowHolds :
        (base : ℕ) (env : Attempt) (sent : Sent) (p : Progress)
        (r : Option (Admission (List AdmissionScope)) × Shared)
        → IsQuiet env
        → in_use_of key r.1 ≡ base + taken_by key r.0
        → FlowHolds base (after_admission retries has_another provider env sent p r)
    unfolding after_admission
    after_admission-FlowHolds base env sent p (none, w) quiet e = omega arith
    after_admission-FlowHolds base env sent p (some a, w) quiet e =
        after_wait-FlowHolds base env sent _ a.release quiet e

    try_once-FlowHolds :
        (base : ℕ) (env : Attempt) (sent : Sent) (p : Progress)
        → IsQuiet env
        → in_use_of key p.shared ≡ base
        → FlowHolds base (try_once retries has_another provider env sent p)
    unfolding try_once
    try_once-FlowHolds base env sent p quiet e = after_admission-FlowHolds base env sent p _ quiet (
        omega (
          arith,
          in_use-admit_with_queue key (provider_scope provider sent.provider ∷ []) env.rounds
              p.shared quiet.waits,
        ))

  -- If the other goroutines leave the slots of a key as they found them, then however the target
  -- loop ends, the slots in use are those before it, and if a response is relayed, also those that
  -- the relayed request holds. This covers errors, retries, failover and a loop that is cut short
  -- by its context.
  pub run_targets-in_use :
      (marshal : Payload → Option String) (providers : Map ProviderConfig) (payload : Payload)
      (endpoint : String) (model : ModelConfig) (env : ℕ → ℕ → Attempt) (w : Shared)
      → ((i j : ℕ) → IsQuiet (env i j))
      → OutcomeSat
          (Uses (in_use_of key w))
          (Keeps (in_use_of key w))
          (run_targets marshal providers payload endpoint model env w)
  unfolding run_targets
  run_targets-in_use marshal providers payload endpoint model env w quiet =
      try_targets-OutcomeSat (Uses base) (Keeps base) marshal providers payload endpoint
        model.retries env (λ i ts. Uses base)
        (λ i t ts body p h _.
          try_target-FlowSat (Uses base) (Uses base) (Keeps base) providers model.retries env i t
            (has_more ts) body (λ j. Uses base)
            (λ j q _ k.
              try_once-FlowHolds model.retries (has_more ts)
                (provider_or_zero (lookup t.provider providers)) base (env i j)
                (sent_for i t body j (env i j).reply) q (quiet i j) k)
            (λ j q k. k) p h)
        (λ i ts p h. h) 0 (resolved_targets model) (start w) refl
    where
      base : ℕ
      base = in_use_of key w
