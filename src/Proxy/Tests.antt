-- ===== src/Proxy/Tests.antt =====
-- One request through the handler.
use shepard.Base.{
  ℕ, ◌≡◌, refl, false, Option, none, some, [], ◌∷◌, lookup, insert, erase, inl, inr, arith,
}
use shepard.Config.Types.{resolved_targets}
use shepard.Queue.{wait}
use shepard.Limiter.{admit, release}
use shepard.Admission.{admit_with_queue}
use shepard.Admission.Balance.{in_use_of}
use shepard.Headers.{copy_response_headers}
use shepard.Buffers.{write_tail}
use shepard.Payload.{apply_system_prompt}
use shepard.Usage.{Usage, record_entry}
use shepard.Failover.Targets.{run_targets, target_body}
use shepard.Proxy.{proxy, ingress_scopes}
use shepard.Json.{str}
use shepard.Failover.Retry.{provider_scope, retryable_status}
use shepard.Failover.Conditions.{IsOpen, Takes}
use shepard.Admission.{Shared}
use shepard.Proxy.State.{ClientReply, refused, relayed, Finished, waiting_for, returned}
use shepard.Proxy.Flow.{FinishedSat}
use shepard.Proxy.Accounting.{IsPending, IsCounted, proxy-IsCounted}
use shepard.Proxy.Recording.{IsRecorded, proxy-IsRecorded}
use shepard.Proxy.Slots.{proxy-in_use}
use shepard.Proxy.Availability.{IsServable, IsRelayed, proxy-IsRelayed}
use shepard.Proxy.Samples.{
  env-IsCalm, config, env, codec, request, no_metrics, idle, roomy_provider, redundant_model,
  redundant_config, bumpy_env, ended_round,
}

abbrev reply_of : Finished → Option ClientReply
reply_of (waiting_for st) = none
reply_of (returned reply completed st) = some reply

abbrev tokens_of : Option Usage → ℕ
tokens_of none = 0
tokens_of (some u) = u.totals.input_tokens

abbrev chat_tokens : Finished → ℕ
chat_tokens (waiting_for st) = 0
chat_tokens (returned reply completed st) = tokens_of (lookup "chat" st.usage.model_usage)

request_relayed :
    reply_of (proxy codec config env "ip:1" request (1 ∷ []) idle)
    ≡ some (relayed 200 [] ((104 ∷ []) ∷ (105 ∷ []) ∷ []))
unfolding proxy admit_with_queue wait admit lookup insert apply_system_prompt run_targets
    resolved_targets copy_response_headers record_entry write_tail
request_relayed = refl

request_recorded : chat_tokens (proxy codec config env "ip:1" request (1 ∷ []) idle) ≡ 2
unfolding proxy admit_with_queue wait admit lookup insert apply_system_prompt run_targets
    resolved_targets copy_response_headers record_entry write_tail
request_recorded = refl

long_body_refused :
    reply_of (proxy codec config env "ip:1" request (1 ∷ 2 ∷ []) idle)
    ≡ some (refused 413 "request body is too large" false)
unfolding proxy admit_with_queue wait admit lookup insert apply_system_prompt run_targets
    resolved_targets copy_response_headers record_entry write_tail
long_body_refused = refl

proxy-IsCounted_example :
    FinishedSat
      (IsPending no_metrics)
      (IsCounted no_metrics 7)
      (proxy codec config env "ip:1" request (1 ∷ []) idle)
proxy-IsCounted_example = proxy-IsCounted codec config env "ip:1" request (1 ∷ []) idle

proxy-in_use_example :
    FinishedSat
      (λ u. Unit {0})
      (λ reply done u. in_use_of "ingress" u.shared ≡ in_use_of "ingress" idle.shared)
      (proxy codec config env "ip:1" request (1 ∷ []) idle)
proxy-in_use_example =
    proxy-in_use "ingress" codec config env "ip:1" request (1 ∷ []) idle (env-IsCalm "ingress")

proxy-IsRecorded_example :
    FinishedSat
      (λ u. u.usage ≡ idle.usage)
      (λ reply done u. IsRecorded codec env "ip:1" idle.usage reply u.usage)
      (proxy codec config env "ip:1" request (1 ∷ []) idle)
proxy-IsRecorded_example = proxy-IsRecorded codec config env "ip:1" request (1 ∷ []) idle

abbrev entered : Shared
entered =
    (admit_with_queue (ingress_scopes codec redundant_config bumpy_env "ip:1" request)
      bumpy_env.ingress_rounds idle.shared).1

abbrev begun : Shared
begun =
    (admit_with_queue (record { key = "model:chat"; limits = redundant_model.limits } ∷ [])
      bumpy_env.model_rounds entered).1

abbrev AtBegin : Shared → Type 0
AtBegin w = begun ≡ w

near_takes :
    (j : ℕ)
    → Takes AtBegin
        (bumpy_env.attempts 0 j)
        (admit_with_queue (provider_scope roomy_provider "near" ∷ []) (ended_round ∷ []) begun)
unfolding admit_with_queue wait admit lookup insert erase release
near_takes j = (_, refl, refl, refl)

near-IsOpen : (j : ℕ) → IsOpen AtBegin roomy_provider "near" (bumpy_env.attempts 0 j)
near-IsOpen j = record { granted = λ w e. rw⁻¹ e (near_takes j); lasting = refl; backs_off = refl }

far_takes :
    (j : ℕ)
    → Takes AtBegin
        (bumpy_env.attempts 1 j)
        (admit_with_queue (provider_scope roomy_provider "far" ∷ []) (ended_round ∷ []) begun)
unfolding admit_with_queue wait admit lookup insert erase release
far_takes j = (_, refl, refl, refl)

far-IsOpen : (j : ℕ) → IsOpen AtBegin roomy_provider "far" (bumpy_env.attempts 1 j)
far-IsOpen j = record { granted = λ w e. rw⁻¹ e (far_takes j); lasting = refl; backs_off = refl }

bumpy-IsServable : IsServable codec redundant_config bumpy_env "ip:1" request (1 ∷ []) idle.shared
unfolding admit_with_queue wait admit lookup insert apply_system_prompt resolved_targets target_body
    retryable_status
bumpy-IsServable = record {
  alias = "chat";
  payload = ("model", str "chat") ∷ [];
  model = redundant_model;
  prompted = ("model", str "chat") ∷ [];
  entered = entered;
  begun = begun;
  Fit = AtBegin;
  let_in = (_, _, refl, refl);
  readable = refl;
  fits = omega arith;
  decodes = refl;
  asks = refl;
  named = refl;
  configured = refl;
  admitted = (_, _, refl, refl);
  prompts = refl;
  fit = refl;
  targets_open = ("{}", refl, near-IsOpen, ("{}", refl, far-IsOpen, tt));
  available = inr (
      inl (
        inr (
          record {
            transient = (refl, λ e. omega (arith, e), λ e. omega (arith, e));
            in_time = refl;
          },
          inl refl,
        )));
}

proxy-IsRelayed_example :
    IsRelayed (proxy codec redundant_config bumpy_env "ip:1" request (1 ∷ []) idle)
proxy-IsRelayed_example =
    proxy-IsRelayed codec redundant_config bumpy_env "ip:1" request (1 ∷ []) idle bumpy-IsServable
