-- ===== src/Proxy/Ending.antt =====
-- The handler returns.
use shepard.Base.{ℕ, ◌≡◌, refl, String, Bool, List, arith}
use shepard.Config.Types.{Config}
use shepard.Queue.{Round}
use shepard.Queue.Returns.{HasEnd, wait-returns}
use shepard.Limiter.{AdmissionScope, LimitStore}
use shepard.Admission.{try_admit, admit_with_queue}
use shepard.Failover.Ending.{HasEnds, IsOver, run_targets-IsOver}
use shepard.Failover.Targets.{Outcome, no_response, still_waiting, aborted, answered}
use shepard.Identity.{Request}
use shepard.Proxy.{relay, after_targets, read_request, close, ingress_scopes, proxy}
use shepard.Proxy.State.{
  ProxyState, ProxyEnv, ClientReply, Finished, waiting_for, returned, Codec, with_admission, begin,
  reject_ingress,
}
use shepard.Proxy.Frame.{Rules, read_request-Holds}
use shepard.Proxy.Flow.{FinishedSat, with_admission-FinishedSat}

-- The context of every wait of the request ends.
pub record IsBounded (env : ProxyEnv) : Type 0 where
  pub ingress : HasEnd env.ingress_rounds
  pub model : HasEnd env.model_rounds
  pub attempts : HasEnds env.attempts

abbrev Returns : Finished → Type 0
Returns = FinishedSat (λ st. ⊥) (λ reply done st. Unit {0})

with_admission-Returns :
    (scopes : List AdmissionScope) (rounds : List (Round (ℕ × LimitStore)))
    (rejected body : ProxyState → Finished) (st : ProxyState)
    → HasEnd rounds
    → ((u : ProxyState) → Returns (rejected u))
    → ((u : ProxyState) → Returns (body u))
    → Returns (with_admission scopes rounds rejected body st)
unfolding admit_with_queue
with_admission-Returns scopes rounds rejected body st h on_rejected on_body =
    let (a, e) = wait-returns (try_admit scopes) rounds st.shared.0 st.shared.1 h in
    with_admission-FinishedSat (λ u. ⊥) (λ reply done u. Unit {0}) (λ held reply done u. Unit {0})
      rejected body st scopes rounds (λ w f. ground (arith, e, f)) (λ b w f no_one. on_rejected _)
      (λ b w held f some_one. on_body _) (λ held reply done u v. tt)

after_targets-Returns :
    (codec : Codec) (c : Config) (env : ProxyEnv) (client : String) (r : Request) (alias : String)
    (st : ProxyState) (o : Outcome)
    → IsOver o
    → Returns (after_targets codec c env client r alias st o)
unfolding after_targets relay
after_targets-Returns codec c env client r alias st (still_waiting p) v = v
after_targets-Returns codec c env client r alias st (aborted p) v = tt
after_targets-Returns codec c env client r alias st (no_response p) v = tt
after_targets-Returns codec c env client r alias st (answered p sent response held) v = tt

ending-Rules :
    (codec : Codec) (c : Config) (env : ProxyEnv) (client : String) (r : Request)
    → IsBounded env
    → Rules codec c env client r
        (λ st. ⊥)
        (λ (t : Unit {0}) st. Unit {0})
        (λ (t : Unit {0}) reply done st. Unit {0})
ending-Rules codec c env client r h = record {
  refuses = λ i st status message retry v. tt;
  rejects = λ i st alias v. tt;
  reads = λ i st v. tt;
  discovers = λ i st store v. tt;
  targets = λ i st alias model payload v. after_targets-Returns codec c env client r alias st _ (
      run_targets-IsOver codec.marshal c.providers payload r.path model env.attempts st.shared
        h.attempts);
  admits = λ i st scopes rejected body on_rejected on_body v.
      with_admission-Returns scopes env.model_rounds rejected body st h.model
        (λ u. on_rejected i u tt) (λ u. on_body i u tt);
}

close-Returns :
    (codec : Codec) (c : Config) (env : ProxyEnv) (client : String) (r : Request)
    (result : Finished)
    → Returns result
    → (reply : ClientReply) × (completed : Bool) × (st : ProxyState) × (close codec c env client r
          result
        ≡ returned reply completed st)
close-Returns codec c env client r (waiting_for st) v = absurd v
close-Returns codec c env client r (returned reply completed st) v = (reply, completed, _, refl)

-- A request whose waits each have a round in which the context ends returns with an answer.
pub proxy-returns :
    (codec : Codec) (c : Config) (env : ProxyEnv) (client : String) (r : Request) (body : List ℕ)
    (st : ProxyState)
    → IsBounded env
    → (reply : ClientReply) × (completed : Bool) × (st' : ProxyState) × (proxy codec c env client r
          body st
        ≡ returned reply completed st')
unfolding proxy
proxy-returns codec c env client r body st h = close-Returns codec c env client r _ (
    with_admission-Returns (ingress_scopes codec c env client r) env.ingress_rounds reject_ingress
      (read_request codec c env client r body) (begin st) h.ingress (λ u. tt)
      (λ u. read_request-Holds (ending-Rules codec c env client r h) tt body u tt))
