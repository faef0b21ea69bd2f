-- ===== src/Failover/Conditions.antt =====
-- Attempts in which nothing ends the request, and the replies that lead the loops on.
use shepard.Base.{
  ℕ, zero, suc, ◌+◌, ◌≡◌, ◌⊎◌, String, true, false, Option, none, some, List, [], ◌∷◌, ℤ, pos,
  negsuc, ltb_ℤ, is_pos, ◌&&◌, arith,
}
use shepard.Config.Types.{ProviderConfig}
use shepard.Queue.{Admission}
use shepard.Limiter.{AdmissionScope, release}
use shepard.Admission.{Shared, admit_with_queue}
use shepard.Failover.Retry.{
  Reply, failed, responded, Attempt, Flow, again, next_target, stopped, waiting, selected,
  provider_scope, retryable_status,
}
use shepard.Failover.Passes.{IsTransient}
use shepard.Failover.Targets.{attempt_count}

-- What is shared once a request has given its slots back.
abbrev pub given_back : List AdmissionScope → Shared → Shared
given_back held w = (w.0, (w.1.0, release held w.1.1))

-- The provider's limits leave the request a place, and once it gave the place back, what is shared
-- still satisfies `Fit`, after the backoff too.
abbrev pub Takes :
    (Shared → Type 0) → Attempt → Option (Admission (List AdmissionScope)) × Shared → Type 0
Takes Fit env (none, w) = ⊥
Takes Fit env (some a, w) =
    (held : List AdmissionScope) × (a.release ≡ some held)
    × Fit (given_back held (env.during_request w))
    × Fit (env.during_backoff (given_back held (env.during_request w)))

-- An attempt in which nothing ends the request: it is admitted, and its context lasts.
pub record IsOpen (Fit : Shared → Type 0) (provider : ProviderConfig) (name : String)
    (env : Attempt) : Type 0 where
  pub granted :
      (w : Shared)
      → Fit w
      → Takes Fit env (admit_with_queue (provider_scope provider name ∷ []) env.rounds w)
  pub lasting : env.ctx_ended ≡ false
  pub backs_off : env.backoff_ended ≡ true

-- A reply that is relayed wherever it comes.
abbrev pub IsGood : Reply → Type 0
IsGood (failed error) = ⊥
IsGood (responded response) = retryable_status response.status ≡ false

-- A reply after which the same target is tried again: no timeout of the attempt's own.
pub record IsPassing (provider : ProviderConfig) (env : Attempt) : Type 0 where
  pub transient : IsTransient env.reply
  pub in_time : (is_pos provider.request_timeout && env.timed_out) ≡ false

-- A good reply comes within the attempts that are left, after none but passing ones.
abbrev pub Succeeds : ProviderConfig → (ℕ → Attempt) → ℕ → ℕ → Type 0
Succeeds provider env zero attempt = ⊥
Succeeds provider env (suc left) attempt =
    IsGood (env attempt).reply
    ⊎ (IsPassing provider (env attempt) × Succeeds provider env left (attempt + 1))

abbrev pub IsSelected : Flow → Type 0
IsSelected (selected p sent response held) = retryable_status response.status ≡ false
IsSelected f = ⊥

-- The loops go on, or have a response that is relayed wherever it comes.
abbrev pub GoesOn : (Shared → Type 0) → Flow → Type 0
GoesOn Fit (stopped p) = ⊥
GoesOn Fit (waiting p) = ⊥
GoesOn Fit (again p) = Fit p.shared
GoesOn Fit (next_target p) = Fit p.shared
GoesOn Fit (selected p sent response held) = retryable_status response.status ≡ false

abbrev pub IsAgain : (Shared → Type 0) → Flow → Type 0
IsAgain Fit (again p) = Fit p.shared
IsAgain Fit f = ⊥

-- An attempt that is not the last one has a retry.
not_last :
    (retries : ℤ) (left attempt : ℕ)
    → attempt + suc (suc left) ≡ attempt_count retries
    → ltb_ℤ (pos attempt) retries ≡ true
not_last (pos n) left attempt e = ground arith
not_last (negsuc n) left attempt e = ground arith

pub more_attempts :
    (retries : ℤ) (provider : ProviderConfig) (env : ℕ → Attempt) (left attempt : ℕ)
    → attempt + suc left ≡ attempt_count retries
    → Succeeds provider env left (attempt + 1)
    → ltb_ℤ (pos attempt) retries ≡ true
more_attempts retries provider env zero attempt e s = absurd s
more_attempts retries provider env (suc left) attempt e s = not_last retries left attempt e
