-- ===== src/Failover/Passes.antt =====
-- One pass of the loop body, described by what it adds to the loop's variables.
use shepard.Base.{
  ℕ, String, ◌≢◌, ◌+◌, ◌≡◌, refl, ◌⊎◌, inr, Bool, true, false, Option, none, some, List, [], ◌∷◌,
  ◌++◌, arith, ℤ, pos, ltb_ℤ,
}
use shepard.Config.Types.{ProviderConfig}
use shepard.Queue.{Admission}
use shepard.Limiter.{AdmissionScope}
use shepard.Admission.{Shared}
use shepard.Failover.Retry.{
  Response, Reply, failed, responded, Attempt, Sent, Progress, Flow, again, next_target, stopped,
  waiting, selected, retryable_status, should_retry_same, should_failover, after_reply, after_wait,
  after_admission, try_once, send,
}
use shepard.Failover.Rules.{FlowSat}

abbrev pub is_failed : Reply → ℕ
is_failed (failed error) = 1
is_failed (responded response) = 0

abbrev pub error_of : Reply → Option String → Option String
error_of (failed error) last = some error
error_of (responded response) last = last

-- The pass sent a request, and counted it and its error.
pub record Adds (sent : Sent) (p q : Progress) : Type 0 where
  pub logged : q.sent ≡ p.sent ++ sent ∷ []
  pub requested : q.upstream_requests ≡ p.upstream_requests + 1
  pub erred : q.upstream_errors ≡ p.upstream_errors + is_failed sent.reply
  pub limited : q.provider_limited ≡ p.provider_limited
  pub last : q.last_err ≡ error_of sent.reply p.last_err

-- The pass sent nothing: it was refused by the provider's limits, or it still waits.
pub record Skips (limited : Bool) (p q : Progress) : Type 0 where
  pub logged : q.sent ≡ p.sent
  pub requested : q.upstream_requests ≡ p.upstream_requests
  pub erred : q.upstream_errors ≡ p.upstream_errors
  pub flagged : q.provider_limited ≡ limited
  pub last : q.last_err ≡ p.last_err

-- A reply after which the same target is tried again: an error, or a status that may pass.
abbrev pub IsTransient : Reply → Type 0
IsTransient (failed error) = Unit
IsTransient (responded response) =
    (retryable_status response.status ≡ true) × (response.status ≢ 404) × (response.status ≢ 429)

-- A response that is relayed: a final status, or one that neither a retry nor another target can
-- mend.
abbrev pub IsFinal : ℤ → Bool → Sent → Response → Type 0
IsFinal retries has_another sent response =
    (sent.reply ≡ responded response)
    × (should_retry_same retries sent.attempt response.status ≡ false)
    × (should_failover retries sent.attempt has_another response.status ≡ false)

module _ (retries : ℤ) (has_another : Bool) (provider : ProviderConfig) (sent : Sent) where
  abbrev pub Again : Progress → Progress → Type 0
  Again p q = Adds sent p q × (ltb_ℤ (pos sent.attempt) retries ≡ true) × IsTransient sent.reply

  abbrev pub Passes : Progress → Progress → Type 0
  Passes p q = Adds sent p q ⊎ Skips true p q

  abbrev pub Stops : Progress → Progress → Type 0
  Stops p q = Adds sent p q ⊎ Skips p.provider_limited p q

  abbrev pub Selects : Progress → Progress → Sent → Response → List AdmissionScope → Type 0
  Selects p q s response held =
      Adds sent p q × (s ≡ sent) × IsFinal retries has_another sent response

  abbrev pub PassSat : Progress → Flow → Type 0
  PassSat p = FlowSat (Again p) (Passes p) (Stops p) (Selects p)

  after_reply-PassSat :
      (env : Attempt) (held : List AdmissionScope) (p : Progress) (r : Reply)
      → sent.reply ≡ r
      → PassSat p (after_reply retries has_another provider env sent held (send env sent p) r)
  unfolding after_reply
  after_reply-PassSat env held p (failed error) e = ground arith
  after_reply-PassSat env held p (responded response) e = ground arith

  after_wait-PassSat :
      (env : Attempt) (p : Progress) (r : Option (List AdmissionScope))
      → sent.reply ≡ env.reply
      → PassSat p (after_wait retries has_another provider env sent p r)
  unfolding after_wait
  after_wait-PassSat env p none e =
      inr (record { logged = refl; requested = refl; erred = refl; flagged = refl; last = refl })
  after_wait-PassSat env p (some held) e = after_reply-PassSat env held p env.reply e

  -- What a pass knows of the variables does not change with what is shared or waited for.
  transfer :
      (p q : Progress) (f : Flow)
      → q.sent ≡ p.sent
      → q.upstream_requests ≡ p.upstream_requests
      → q.upstream_errors ≡ p.upstream_errors
      → q.provider_limited ≡ p.provider_limited
      → q.last_err ≡ p.last_err
      → PassSat q f
      → PassSat p f
  transfer p q (again u) a b c d e s = ground arith
  transfer p q (next_target u) a b c d e s = ground arith
  transfer p q (stopped u) a b c d e s = ground arith
  transfer p q (waiting u) a b c d e s = ground arith
  transfer p q (selected u t response held) a b c d e s = ground arith

  after_admission-PassSat :
      (env : Attempt) (p : Progress) (r : Option (Admission (List AdmissionScope)) × Shared)
      → sent.reply ≡ env.reply
      → PassSat p (after_admission retries has_another provider env sent p r)
  unfolding after_admission
  after_admission-PassSat env p (none, w) e =
      inr (record { logged = refl; requested = refl; erred = refl; flagged = refl; last = refl })
  after_admission-PassSat env p (some a, w) e =
      transfer p _ _ refl refl refl refl refl (after_wait-PassSat env _ a.release e)

  pub try_once-PassSat :
      (env : Attempt) (p : Progress)
      → sent.reply ≡ env.reply
      → PassSat p (try_once retries has_another provider env sent p)
  unfolding try_once
  try_once-PassSat env p e = after_admission-PassSat env p _ e
