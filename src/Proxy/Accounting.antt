-- ===== src/Proxy/Accounting.antt =====
-- The counters over one request.
use shepard.Base.{ℕ, ◌+◌, ◌≡◌, String, Bool, true, false, not, List, arith, string_eq}
use shepard.Config.Types.{Config}
use shepard.Failover.Targets.{Outcome, no_response, still_waiting, aborted, answered}
use shepard.Identity.{Request}
use shepard.Proxy.{
  record_usage, relay, after_targets, read_request, close, close_metrics, ingress_scopes, proxy,
}
use shepard.Proxy.State.{
  Metrics, ProxyState, ProxyEnv, ClientReply, refused, relayed, Finished, waiting_for, returned,
  Codec, give_back, begin, reject_ingress,
}
use shepard.Proxy.Frame.{Rules, read_request-Holds}
use shepard.Proxy.Flow.{admitted_state, FinishedSat, with_admission-FinishedSat}

abbrev pub is_relayed : ClientReply → Bool
is_relayed (refused status message retry) = false
is_relayed (relayed status header chunks) = true

abbrev pub unit_if : Bool → ℕ
unit_if true = 1
unit_if false = 0

module _ (m₀ : Metrics) where
  -- While the handler runs, the request is neither completed nor failed.
  pub record IsOpen (st : ProxyState) : Type 0 where
    pub requests : st.metrics.requests ≡ m₀.requests
    pub active : st.metrics.active ≡ m₀.active
    pub completed : st.metrics.completed ≡ m₀.completed
    pub failed : st.metrics.failed ≡ m₀.failed
    pub duration : st.metrics.duration_nanos ≡ m₀.duration_nanos

  -- When it returns, it is completed if its response was relayed.
  pub record IsBooked (reply : ClientReply) (done : Bool) (st : ProxyState) : Type 0 where
    pub by_reply : done ≡ is_relayed reply
    pub requests : st.metrics.requests ≡ m₀.requests
    pub active : st.metrics.active ≡ m₀.active
    pub completed : st.metrics.completed ≡ m₀.completed + unit_if done
    pub failed : st.metrics.failed ≡ m₀.failed
    pub duration : st.metrics.duration_nanos ≡ m₀.duration_nanos

  abbrev pub Books : Finished → Type 0
  Books = FinishedSat IsOpen IsBooked

  module _ (codec : Codec) (c : Config) (env : ProxyEnv) (client : String) (r : Request) where
    after_targets-Books :
        (alias : String) (st : ProxyState) (o : Outcome)
        → IsOpen st
        → Books (after_targets codec c env client r alias st o)
    unfolding after_targets relay give_back
    after_targets-Books alias st (still_waiting p) v = ground arith
    after_targets-Books alias st (aborted p) v = ground arith
    after_targets-Books alias st (no_response p) v = ground arith
    after_targets-Books alias st (answered p sent response held) v = ground arith

    accounting-Rules :
        Rules codec c env client r IsOpen (λ (t : Unit {0}). IsOpen) (λ (t : Unit {0}). IsBooked)
    unfolding give_back record_usage
    accounting-Rules = record {
      refuses = λ i st status message retry v. ground arith;
      rejects = λ i st alias v. ground arith;
      reads = λ i st v. ground arith;
      discovers = λ i st store v. ground arith;
      targets = λ i st alias model payload v. after_targets-Books alias st _ v;
      admits = λ i st scopes rejected body on_rejected on_body v.
          with_admission-FinishedSat IsOpen IsBooked (λ held. IsBooked) rejected body st scopes
            env.model_rounds (λ w e. ground arith) (λ a w e no_one. on_rejected i _ (ground arith))
            (λ a w held e some_one. on_body i (admitted_state a w st) (ground arith))
            (λ held reply b u v'. ground arith);
    }

-- The counters of a request that still waits for admission, and of one that returned.
pub record IsPending (m₀ : Metrics) (st : ProxyState) : Type 0 where
  pub requests : st.metrics.requests ≡ m₀.requests + 1
  pub active : st.metrics.active ≡ m₀.active + 1
  pub completed : st.metrics.completed ≡ m₀.completed
  pub failed : st.metrics.failed ≡ m₀.failed

pub record IsCounted (m₀ : Metrics) (elapsed : ℕ) (reply : ClientReply) (done : Bool)
    (st : ProxyState) : Type 0 where
  pub requests : st.metrics.requests ≡ m₀.requests + 1
  pub active : st.metrics.active ≡ m₀.active
  pub completed : st.metrics.completed ≡ m₀.completed + unit_if (is_relayed reply)
  pub failed : st.metrics.failed ≡ m₀.failed + unit_if (not (is_relayed reply))
  pub duration : st.metrics.duration_nanos ≡ m₀.duration_nanos + elapsed

close-IsCounted :
    (codec : Codec) (c : Config) (env : ProxyEnv) (client : String) (r : Request) (st : ProxyState)
    (result : Finished)
    → Books (begin st).metrics result
    → FinishedSat
        (IsPending st.metrics)
        (IsCounted st.metrics env.elapsed)
        (close codec c env client r result)
unfolding close_metrics
close-IsCounted codec c env client r st (waiting_for u) v = ground arith
close-IsCounted codec c env client r st (returned (refused status message retry) done u) v =
    ground arith
close-IsCounted codec c env client r st (returned (relayed status header chunks) done u) v =
    ground arith

-- Whatever a request meets, once its handler returns it was counted as one request, it is no longer
-- counted as active, it was counted as completed if a provider's response was relayed to the client
-- and as failed if not, never as both, and its duration was added. While it waits for admission it
-- is counted as active and as neither completed nor failed.
pub proxy-IsCounted :
    (codec : Codec) (c : Config) (env : ProxyEnv) (client : String) (r : Request) (body : List ℕ)
    (st : ProxyState)
    → FinishedSat
        (IsPending st.metrics)
        (IsCounted st.metrics env.elapsed)
        (proxy codec c env client r body st)
unfolding proxy give_back
proxy-IsCounted codec c env client r body st =
    let m₀ : Metrics = (begin st).metrics in
    close-IsCounted codec c env client r st _ (
      with_admission-FinishedSat (IsOpen m₀) (IsBooked m₀) (λ held. IsBooked m₀) reject_ingress
        (read_request codec c env client r body) (begin st) (ingress_scopes codec c env client r)
        env.ingress_rounds (λ w e. ground arith) (λ a w e no_one. ground arith)
        (λ a w held e some_one.
          read_request-Holds (accounting-Rules m₀ codec c env client r) tt body
            (admitted_state a w (begin st)) (ground arith))
        (λ held reply b u v. ground arith))
