-- ===== src/Failover/Targets.antt =====
-- The target loop of `proxy`: failover from one target to the next, and the status when none
-- answers.
use shepard.Base.{
  ℕ, suc, ◌+◌, String, Bool, true, false, Option, none, some, List, [], ◌∷◌, Map, lookup, insert, ℤ,
  pos, negsuc, if◌then◌else◌,
}
use shepard.Config.Types.{
  ProviderConfig, TargetConfig, ModelConfig, resolved_targets, provider_or_zero,
}
use shepard.Limiter.{AdmissionScope}
use shepard.Admission.{Shared}
use shepard.Payload.{Payload, clone_payload, apply_provider_compatibility}
use shepard.Json.{str}
use shepard.Failover.Retry.{
  Response, Reply, Attempt, Sent, Progress, Flow, again, next_target, stopped, waiting, selected,
  attempts,
}

-- `attempt <= retries` from 0 on.
abbrev pub attempt_count : ℤ → ℕ
attempt_count (pos n) = suc n
attempt_count (negsuc n) = 0

-- How the target loop ends. `aborted` is the return when a payload cannot be encoded.
pub data Outcome : Type 0 where
  no_response still_waiting aborted : Progress → Outcome
  answered : Progress → Sent → Response → List AdmissionScope → Outcome

abbrev pub has_more : List TargetConfig → Bool
has_more [] = false
has_more (t ∷ ts) = true

-- The next target is tried after `continue targetLoop`, and when the inner loop runs out.
abbrev pub advance : (Progress → Outcome) → Flow → Outcome
advance next (again p) = next p
advance next (next_target p) = next p
advance next (stopped p) = no_response p
advance next (waiting p) = still_waiting p
advance next (selected p sent response held) = answered p sent response held

-- `marshal` is `json.Marshal`, which fails on what JSON cannot hold.
module _ (marshal : Payload → Option String) (providers : Map ProviderConfig) (payload : Payload)
    (endpoint : String) where
  unfoldable pub target_body : TargetConfig → Option String
  target_body t = marshal (
      apply_provider_compatibility (insert "model" (str t.model) (clone_payload payload)) endpoint
        (provider_or_zero (lookup t.provider providers)).protocol)

-- The record of an attempt at a target.
abbrev pub sent_for : ℕ → TargetConfig → String → ℕ → Reply → Sent
sent_for index t body attempt reply = record {
  target = index;
  attempt = attempt;
  provider = t.provider;
  body = body;
  reply = reply;
}

module _ (providers : Map ProviderConfig) (retries : ℤ) (env : ℕ → ℕ → Attempt) where
  unfoldable pub try_target : ℕ → TargetConfig → Bool → String → Progress → Flow
  unfolding attempts
  try_target index t has_another body =
      attempts retries has_another (provider_or_zero (lookup t.provider providers)) (env index)
        (sent_for index t body) (attempt_count retries) 0

module _ (marshal : Payload → Option String) (providers : Map ProviderConfig) (payload : Payload)
    (endpoint : String) (retries : ℤ) (env : ℕ → ℕ → Attempt) where
  -- The outer loop, over the targets that are left.
  unfoldable pub try_targets : ℕ → List TargetConfig → Progress → Outcome
  unfolding target_body try_target
  try_targets index [] p = no_response p
  try_targets index (t ∷ targets) p = elim (target_body marshal providers payload endpoint t) [
    | none ↦ aborted p
    | some body ↦
        advance (try_targets (index + 1) targets)
          (try_target providers retries env index t (has_more targets) body p)
  ]

abbrev pub start : Shared → Progress
start w = record {
  shared = w;
  queue_waits = 0;
  upstream_requests = 0;
  upstream_errors = 0;
  provider_limited = false;
  last_err = none;
  sent = [];
}

-- The loop of `proxy`, from the state of what is shared when it begins.
unfoldable pub run_targets :
    (Payload → Option String)
    → Map ProviderConfig
    → Payload
    → String
    → ModelConfig
    → (ℕ → ℕ → Attempt)
    → Shared
    → Outcome
unfolding try_targets
run_targets marshal providers payload endpoint model env w =
    try_targets marshal providers payload endpoint model.retries env 0 (resolved_targets model)
      (start w)

pub record Failure : Type 0 where
  pub status : ℕ
  pub message : String
  pub retry_after : Bool

-- What the client gets when no target answered, by whether the request's deadline has passed.
unfoldable pub failure : Bool → Progress → Failure
failure deadline_exceeded p =
    if deadline_exceeded
    then record { status = 504; message = "provider request timed out"; retry_after = false }
    else elim p.last_err [
      | none ↦
          if p.provider_limited
          then record {
            status = 429;
            message = "all provider targets are rate limited";
            retry_after = true;
          }
          else record { status = 502; message = "all provider targets failed"; retry_after = false }
      | some error ↦ record {
        status = 502;
        message = "all provider targets failed";
        retry_after = false;
      }
    ]
