-- ===== src/Proxy/Slots.antt =====
-- The concurrency limits over one request.
use shepard.Base.{ℕ, ◌+◌, ◌≡◌, String, Option, none, some, List, All, arith, subst, ◌∙◌, string_eq}
use shepard.Config.Types.{Config}
use shepard.Queue.{Round, Admission}
use shepard.Limiter.{AdmissionScope, LimitStore}
use shepard.Limiter.Holds.{demand, in_use-release}
use shepard.Admission.{Shared}
use shepard.Admission.Balance.{in_use_of, taken, taken_by, IsNeutral, in_use-admit_with_queue}
use shepard.Failover.Rules.{OutcomeSat}
use shepard.Failover.Slots.{IsQuiet, Uses, Keeps, run_targets-in_use}
use shepard.Failover.Targets.{Outcome, no_response, still_waiting, aborted, answered}
use shepard.Identity.{Request}
use shepard.Proxy.{record_usage, relay, after_targets, read_request, close, ingress_scopes, proxy}
use shepard.Proxy.State.{
  ProxyState, ProxyEnv, Finished, waiting_for, returned, Codec, give_back, with_admission, begin,
  reject_ingress,
}
use shepard.Proxy.Frame.{Rules, read_request-Holds}
use shepard.Proxy.Flow.{admitted_state, FinishedSat, with_admission-FinishedSat}

module _ (key : String) where
  -- What the other goroutines do during the request nets to nothing at the key.
  pub record IsCalm (env : ProxyEnv) : Type 0 where
    pub ingress : All (λ round. IsNeutral key round.others) env.ingress_rounds
    pub reading : IsNeutral key env.during_read
    pub discovery : IsNeutral key env.during_discovery
    pub model : All (λ round. IsNeutral key round.others) env.model_rounds
    pub attempts : (i j : ℕ) → IsQuiet key (env.attempts i j)
    pub relaying : IsNeutral key env.during_relay

  -- A return with the given number of units in use.
  abbrev pub LeavesUnits : ℕ → Finished → Type 0
  LeavesUnits n = FinishedSat (λ st. Unit {0}) (λ reply done u. in_use_of key u.shared ≡ n)

  give_back-in_use :
      (n : ℕ) (held : List AdmissionScope) (u : ProxyState)
      → in_use_of key u.shared ≡ n + demand key held
      → in_use_of key (give_back held u).shared ≡ n
  unfolding give_back
  give_back-in_use n held u e = omega (arith, in_use-release key held u.shared.1.1)

  units_of :
      (base : ℕ) (result : Option (Admission (List AdmissionScope)) × Shared)
      (a : Admission (List AdmissionScope)) (w : Shared) (r : Option (List AdmissionScope))
      → in_use_of key result.1 ≡ base + taken_by key result.0
      → result ≡ (some a, w)
      → a.release ≡ r
      → in_use_of key w ≡ base + taken key r
  units_of base result a w r h e f =
      let at_result : in_use_of key w ≡ base + taken_by key (some a) =
        subst
          (λ (x : Option (Admission (List AdmissionScope)) × Shared).
            in_use_of key x.1 ≡ base + taken_by key x.0)
          e h in
      rw (← f) at_result

  with_admission-LeavesUnits :
      (scopes : List AdmissionScope) (rounds : List (Round (ℕ × LimitStore)))
      (rejected body : ProxyState → Finished) (st : ProxyState)
      → All (λ round. IsNeutral key round.others) rounds
      → ((n : ℕ) (u : ProxyState) → in_use_of key u.shared ≡ n → LeavesUnits n (rejected u))
      → ((n : ℕ) (u : ProxyState) → in_use_of key u.shared ≡ n → LeavesUnits n (body u))
      → LeavesUnits (in_use_of key st.shared) (with_admission scopes rounds rejected body st)
  with_admission-LeavesUnits scopes rounds rejected body st calm on_rejected on_body =
      let base : ℕ = in_use_of key st.shared in
      let balance = in_use-admit_with_queue key scopes rounds st.shared calm in
      with_admission-FinishedSat (λ u. Unit {0}) (λ reply done u. in_use_of key u.shared ≡ base)
        (λ held reply done u. in_use_of key u.shared ≡ base + demand key held) rejected body st
        scopes rounds (λ w e. tt)
        (λ a w e no_one.
          on_rejected base _ (units_of base _ a w none balance e no_one ∙ omega arith))
        (λ a w held e some_one.
          on_body (base + demand key held) (admitted_state a w st)
            (units_of base _ a w (some held) balance e some_one))
        (λ held reply done u. give_back-in_use base held u)

  module _ (codec : Codec) (c : Config) (env : ProxyEnv) (client : String) (r : Request)
      (calm : IsCalm env) where
    after_targets-LeavesUnits :
        (n : ℕ) (alias : String) (st : ProxyState) (o : Outcome)
        → OutcomeSat (Uses key n) (Keeps key n) o
        → LeavesUnits n (after_targets codec c env client r alias st o)
    unfolding after_targets relay give_back
    after_targets-LeavesUnits n alias st (still_waiting p) v = tt
    after_targets-LeavesUnits n alias st (aborted p) v = v
    after_targets-LeavesUnits n alias st (no_response p) v = v
    after_targets-LeavesUnits n alias st (answered p sent response held) v =
        omega
          (arith, in_use-release key held (env.during_relay p.shared).1.1, calm.relaying p.shared)

    slots-Rules :
        Rules codec c env client r
          (λ st. Unit {0})
          (λ n st. in_use_of key st.shared ≡ n)
          (λ n reply done u. in_use_of key u.shared ≡ n)
    unfolding record_usage
    slots-Rules = record {
      refuses = λ n st status message retry e. e;
      rejects = λ n st alias e. e;
      reads = λ n st e. calm.reading st.shared ∙ e;
      discovers = λ n st store e. calm.discovery st.shared ∙ e;
      targets = λ n st alias model payload e. after_targets-LeavesUnits n alias st _ (
          rw (← e) (
            run_targets-in_use key codec.marshal c.providers payload r.path model env.attempts
              st.shared calm.attempts));
      admits = λ n st scopes rejected body on_rejected on_body e. rw (← e) (
          with_admission-LeavesUnits scopes env.model_rounds rejected body st calm.model on_rejected
            on_body);
    }

  close-LeavesUnits :
      (codec : Codec) (c : Config) (env : ProxyEnv) (client : String) (r : Request) (n : ℕ)
      (result : Finished)
      → LeavesUnits n result
      → LeavesUnits n (close codec c env client r result)
  close-LeavesUnits codec c env client r n (waiting_for u) v = tt
  close-LeavesUnits codec c env client r n (returned reply done u) v = v

  -- Take a key whose slots the other goroutines leave as they found them, while this request waits,
  -- reads, discovers, is tried and is relayed. Then a request whose handler returns, by whatever
  -- path, leaves as many slots of the key in use as there were when it came: the ingress and client
  -- slots, the model's and the provider's are all given back.
  pub proxy-in_use :
      (codec : Codec) (c : Config) (env : ProxyEnv) (client : String) (r : Request) (body : List ℕ)
      (st : ProxyState)
      → IsCalm env
      → FinishedSat
          (λ u. Unit {0})
          (λ reply done u. in_use_of key u.shared ≡ in_use_of key st.shared)
          (proxy codec c env client r body st)
  unfolding proxy
  proxy-in_use codec c env client r body st calm =
      close-LeavesUnits codec c env client r (in_use_of key st.shared) _ (
        with_admission-LeavesUnits (ingress_scopes codec c env client r) env.ingress_rounds
          reject_ingress (read_request codec c env client r body) (begin st) calm.ingress
          (λ n u e. e) (λ n u. read_request-Holds (slots-Rules codec c env client r calm) n body u))
