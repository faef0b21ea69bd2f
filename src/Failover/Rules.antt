-- ===== src/Failover/Rules.antt =====
-- The loops' rules: an invariant of one pass holds wherever the loops end.
use shepard.Base.{
  ℕ, zero, suc, ◌+◌, ◌≤◌, ◌<◌, ◌≡◌, arith, String, Bool, Option, some, List, [], ◌∷◌, Map, lookup,
  ℤ, Option-cases, inl, inr,
}
use shepard.Config.Types.{provider_or_zero, ProviderConfig, TargetConfig}
use shepard.Limiter.{AdmissionScope}
use shepard.Payload.{Payload}
use shepard.Failover.Retry.{
  Response, Reply, Attempt, Sent, Progress, Flow, again, next_target, stopped, waiting, selected,
  resume, try_once, attempts,
}
use shepard.Failover.Targets.{
  Outcome, no_response, still_waiting, aborted, answered, advance, target_body, try_target,
  try_targets, has_more, sent_for, attempt_count,
}

-- What holds when a pass ends: one predicate for the loop's next pass, the next target, a stop and
-- a response. A goroutine that still waits is held to the stop's.
abbrev pub FlowSat {ℓ} :
    (Progress → Type ℓ)
    → (Progress → Type ℓ)
    → (Progress → Type ℓ)
    → (Progress → Sent → Response → List AdmissionScope → Type ℓ)
    → Flow
    → Type ℓ
FlowSat A N T S (again p) = A p
FlowSat A N T S (next_target p) = N p
FlowSat A N T S (stopped p) = T p
FlowSat A N T S (waiting p) = T p
FlowSat A N T S (selected p sent response held) = S p sent response held

abbrev pub OutcomeSat {ℓ} :
    (Progress → Type ℓ)
    → (Progress → Sent → Response → List AdmissionScope → Type ℓ)
    → Outcome
    → Type ℓ
OutcomeSat T S (no_response p) = T p
OutcomeSat T S (still_waiting p) = T p
OutcomeSat T S (aborted p) = T p
OutcomeSat T S (answered p sent response held) = S p sent response held

-- A weaker claim of each way to end.
pub FlowSat-map {ℓ κ} :
    {A N T : Progress → Type ℓ} {S : Progress → Sent → Response → List AdmissionScope → Type ℓ}
    (A' N' T' : Progress → Type κ) (S' : Progress → Sent → Response → List AdmissionScope → Type κ)
    (f : Flow)
    → ((p : Progress) → A p → A' p)
    → ((p : Progress) → N p → N' p)
    → ((p : Progress) → T p → T' p)
    → ((p : Progress) (s : Sent) (r : Response) (held : List AdmissionScope)
        → S p s r held
        → S' p s r held)
    → FlowSat A N T S f
    → FlowSat A' N' T' S' f
FlowSat-map A' N' T' S' (again p) a n t s h = a p h
FlowSat-map A' N' T' S' (next_target p) a n t s h = n p h
FlowSat-map A' N' T' S' (stopped p) a n t s h = t p h
FlowSat-map A' N' T' S' (waiting p) a n t s h = t p h
FlowSat-map A' N' T' S' (selected p sent response held) a n t s h = s p sent response held h

module _ {ℓ} (N T : Progress → Type ℓ)
    (S : Progress → Sent → Response → List AdmissionScope → Type ℓ) where
  resume-FlowSat :
      (A : Progress → Type ℓ) (next : Progress → Flow) (f : Flow)
      → ((p : Progress) → A p → FlowSat N N T S (next p))
      → FlowSat A N T S f
      → FlowSat N N T S (resume next f)
  resume-FlowSat A next (again p) h s = h p s
  resume-FlowSat A next (next_target p) h s = s
  resume-FlowSat A next (stopped p) h s = s
  resume-FlowSat A next (waiting p) h s = s
  resume-FlowSat A next (selected p sent response held) h s = s

  advance-OutcomeSat :
      (next : Progress → Outcome) (f : Flow)
      → ((p : Progress) → N p → OutcomeSat T S (next p))
      → FlowSat N N T S f
      → OutcomeSat T S (advance next f)
  advance-OutcomeSat next (again p) h s = h p s
  advance-OutcomeSat next (next_target p) h s = h p s
  advance-OutcomeSat next (stopped p) h s = s
  advance-OutcomeSat next (waiting p) h s = s
  advance-OutcomeSat next (selected p sent response held) h s = s

  -- The inner loop, by an invariant at each attempt; `limit` bounds the attempts' numbers.
  attempts-FlowSat :
      (retries : ℤ) (has_another : Bool) (provider : ProviderConfig) (env : ℕ → Attempt)
      (sent_at : ℕ → Reply → Sent) (limit : ℕ) (A : ℕ → Progress → Type ℓ)
      → ((j : ℕ) (p : Progress)
          → j < limit
          → A j p
          → FlowSat
              (A (j + 1))
              N
              T
              S
              (try_once retries has_another provider (env j) (sent_at j (env j).reply) p))
      → ((j : ℕ) (p : Progress) → A j p → N p)
      → (left attempt : ℕ) (p : Progress) → attempt + left ≤ limit
      → A attempt p
      → FlowSat N N T S (attempts retries has_another provider env sent_at left attempt p)
  unfolding attempts
  attempts-FlowSat retries has_another provider env sent_at limit A step exit zero attempt p h a =
      exit attempt p a
  attempts-FlowSat retries has_another provider env sent_at limit A step exit (suc left) attempt p h
        a =
      resume-FlowSat (A (attempt + 1)) _ _
        (λ p' a'.
          attempts-FlowSat retries has_another provider env sent_at limit A step exit left
            (attempt + 1) p' (omega arith) a')
        (step attempt p (omega arith) a)

  pub try_target-FlowSat :
      (providers : Map ProviderConfig) (retries : ℤ) (env : ℕ → ℕ → Attempt) (i : ℕ)
      (t : TargetConfig) (has_another : Bool) (body : String) (A : ℕ → Progress → Type ℓ)
      → ((j : ℕ) (p : Progress)
          → j < attempt_count retries
          → A j p
          → FlowSat (A (j + 1)) N T S (
              try_once retries has_another
                (provider_or_zero (lookup t.provider providers))
                (env i j)
                (sent_for i t body j (env i j).reply)
                p))
      → ((j : ℕ) (p : Progress) → A j p → N p)
      → (p : Progress) → A 0 p
      → FlowSat N N T S (try_target providers retries env i t has_another body p)
  unfolding try_target
  try_target-FlowSat providers retries env i t has_another body A step exit p a =
      attempts-FlowSat retries has_another (provider_or_zero (lookup t.provider providers)) (env i)
        (sent_for i t body) (attempt_count retries) A step exit (attempt_count retries) 0 p
        (omega arith) a

module _ {ℓ} (T : Progress → Type ℓ) (S : Progress → Sent → Response → List AdmissionScope → Type ℓ)
    (marshal : Payload → Option String) (providers : Map ProviderConfig) (payload : Payload)
    (endpoint : String) (retries : ℤ) (env : ℕ → ℕ → Attempt) where
  -- The outer loop, by an invariant at each target, over the targets that are left.
  pub try_targets-OutcomeSat :
      (I : ℕ → List TargetConfig → Progress → Type ℓ)
      → ((i : ℕ) (t : TargetConfig) (ts : List TargetConfig) (body : String) (p : Progress)
          → I i (t ∷ ts) p
          → target_body marshal providers payload endpoint t ≡ some body
          → FlowSat
              (I (i + 1) ts)
              (I (i + 1) ts)
              T
              S
              (try_target providers retries env i t (has_more ts) body p))
      → ((i : ℕ) (ts : List TargetConfig) (p : Progress) → I i ts p → T p)
      → (i : ℕ) (ts : List TargetConfig) (p : Progress) → I i ts p
      → OutcomeSat T S (try_targets marshal providers payload endpoint retries env i ts p)
  unfolding try_targets
  try_targets-OutcomeSat I step exit i [] p h = exit i [] p h
  try_targets-OutcomeSat I step exit i (t ∷ ts) p h =
      elim (Option-cases (target_body marshal providers payload endpoint t)) [
        | inl e ↦ rw (e, try_targets) (exit i (t ∷ ts) p h)
        | inr (body, e) ↦
            rw (e, try_targets)
              (advance-OutcomeSat (I (i + 1) ts) T S _ _
                (λ p' h'. try_targets-OutcomeSat I step exit (i + 1) ts p' h')
                (step i t ts body p h e))
      ]
