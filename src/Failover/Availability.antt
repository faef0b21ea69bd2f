-- ===== src/Failover/Availability.antt =====
-- The target loop answers if it can: a target that responds in time is reached.
use shepard.Base.{
  ℕ, ◌+◌, ◌≡◌, ◌⊎◌, refl, String, true, false, Option, some, List, [], ◌∷◌, Map, lookup, ℤ, arith,
  inl, inr,
}
use shepard.Config.Types.{
  ProviderConfig, TargetConfig, ModelConfig, resolved_targets, provider_or_zero,
}
use shepard.Admission.{Shared}
use shepard.Payload.{Payload}
use shepard.Failover.Retry.{
  Attempt, Progress, Flow, again, next_target, stopped, waiting, selected, retryable_status,
}
use shepard.Failover.Conditions.{IsOpen, Succeeds, IsSelected, GoesOn}
use shepard.Failover.Delivery.{attempts-GoesOn, attempts-IsSelected}
use shepard.Failover.Targets.{
  Outcome, answered, advance, target_body, try_target, try_targets, run_targets, has_more, sent_for,
  attempt_count, start,
}

-- The loop ends with a response that is relayed wherever it comes.
abbrev pub IsAnswered : Outcome → Type 0
IsAnswered (answered p sent response held) = retryable_status response.status ≡ false
IsAnswered o = ⊥

advance-IsAnswered :
    (Fit : Shared → Type 0) (next : Progress → Outcome) (f : Flow)
    → ((p : Progress) → Fit p.shared → IsAnswered (next p))
    → GoesOn Fit f
    → IsAnswered (advance next f)
advance-IsAnswered Fit next (again p) h g = h p g
advance-IsAnswered Fit next (next_target p) h g = h p g
advance-IsAnswered Fit next (stopped p) h g = absurd g
advance-IsAnswered Fit next (waiting p) h g = absurd g
advance-IsAnswered Fit next (selected p sent response held) h g = g

advance-kept : (next : Progress → Outcome) (f : Flow) → IsSelected f → IsAnswered (advance next f)
advance-kept next (again p) s = absurd s
advance-kept next (next_target p) s = absurd s
advance-kept next (stopped p) s = absurd s
advance-kept next (waiting p) s = absurd s
advance-kept next (selected p sent response held) s = s

module _ (Fit : Shared → Type 0) (marshal : Payload → Option String)
    (providers : Map ProviderConfig) (payload : Payload) (endpoint : String) (retries : ℤ)
    (env : ℕ → ℕ → Attempt) where
  abbrev provider_of : TargetConfig → ProviderConfig
  provider_of t = provider_or_zero (lookup t.provider providers)

  -- Each target's payload encodes, and nothing ends the request at one of its attempts.
  abbrev pub AreOpen : ℕ → List TargetConfig → Type 0
  AreOpen index [] = Unit {0}
  AreOpen index (t ∷ targets) =
      (body : String) × (target_body marshal providers payload endpoint t ≡ some body)
      × ((j : ℕ) → IsOpen Fit (provider_of t) t.provider (env index j))
      × AreOpen (index + 1) targets

  -- Some target succeeds.
  abbrev pub IsAvailable : ℕ → List TargetConfig → Type 0
  IsAvailable index [] = ⊥
  IsAvailable index (t ∷ targets) =
      Succeeds (provider_of t) (env index) (attempt_count retries) 0
      ⊎ IsAvailable (index + 1) targets

  available_more :
      (index : ℕ) (targets : List TargetConfig)
      → IsAvailable index targets
      → has_more targets ≡ true
  available_more index [] a = absurd a
  available_more index (t ∷ targets) a = refl

  try_targets-IsAnswered :
      (index : ℕ) (targets : List TargetConfig) (p : Progress)
      → AreOpen index targets
      → IsAvailable index targets
      → Fit p.shared
      → IsAnswered (try_targets marshal providers payload endpoint retries env index targets p)
  unfolding try_targets try_target
  try_targets-IsAnswered index [] p o a f = absurd a
  try_targets-IsAnswered index (t ∷ targets) p (body, encodes, is_open, o) (inl here) f =
      rw (encodes, try_targets)
        (advance-kept _ _ (
          attempts-IsSelected Fit retries (has_more targets) (provider_of t) t.provider (env index)
            (sent_for index t body) (λ j r. refl) (λ j r. refl) is_open (attempt_count retries) 0 p
            (omega arith) here f))
  try_targets-IsAnswered index (t ∷ targets) p (body, encodes, is_open, o) (inr later) f =
      rw (encodes, try_targets)
        (advance-IsAnswered Fit _ _ (λ q g. try_targets-IsAnswered (index + 1) targets q o later g)
          (attempts-GoesOn Fit retries (has_more targets) (provider_of t) t.provider (env index)
            (sent_for index t body) (λ j r. refl) (λ j r. refl) is_open (attempt_count retries) 0 p
            (available_more (index + 1) targets later) f))

  -- The loop over a model's targets answers, with a status that is no reason for a retry or a
  -- failover, when the payload encodes for each target, nothing ends the request at an attempt, and
  -- one of the targets gives such a response within its attempts.
  pub run_targets-IsAnswered :
      (model : ModelConfig) (w : Shared)
      → model.retries ≡ retries
      → AreOpen 0 (resolved_targets model)
      → IsAvailable 0 (resolved_targets model)
      → Fit w
      → IsAnswered (run_targets marshal providers payload endpoint model env w)
  unfolding run_targets
  run_targets-IsAnswered model w e o a f =
      simp e (try_targets-IsAnswered 0 (resolved_targets model) (start w) o a f)
