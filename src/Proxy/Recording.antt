-- ===== src/Proxy/Recording.antt =====
-- What one request writes to the usage tables.
use shepard.Base.{ℕ, zero, suc, ◌-◌, drop, ◌≡◌, refl, sym, ◌∙◌, ap, String, Bool, List, [], ◌∷◌}
use shepard.Config.Types.{Config}
use shepard.Headers.{Header}
use shepard.Buffers.{TailBuffer, write_tail}
use shepard.Buffers.Tail
use shepard.Buffers.Tail.{last, stream, write_all-last}
use shepard.Usage.{UsageDb, Entry, record_entry}
use shepard.Failover.Targets.{Outcome, no_response, still_waiting, aborted, answered}
use shepard.Identity.{Request}
use shepard.Proxy.{record_usage, relay, after_targets, read_request, close, ingress_scopes, proxy}
use shepard.Proxy.State.{
  ProxyState, ProxyEnv, ClientReply, refused, relayed, Finished, waiting_for, returned, Codec,
  give_back, begin, reject_ingress, capture, usage_capture_limit,
}
use shepard.Proxy.Frame.{Rules, read_request-Holds}
use shepard.Proxy.Flow.{admitted_state, FinishedSat, with_admission-FinishedSat}

capture-eq-write_all :
    (chunks : List (List ℕ)) (b : TailBuffer) → capture chunks b ≡ Tail.write_all b chunks
unfolding capture
capture-eq-write_all [] b = refl
capture-eq-write_all (chunk ∷ chunks) b = capture-eq-write_all chunks (write_tail b chunk)

drop_none : (n : ℕ) → drop {A = ℕ} n [] ≡ []
drop_none zero = refl
drop_none (suc n) = refl

capture-last :
    (limit : ℕ) (chunks : List (List ℕ))
    → (capture chunks (record { buf = []; limit = limit })).buf ≡ last limit (stream chunks)
capture-last limit chunks =
    let empty : TailBuffer = record { buf = []; limit = limit } in
    ap (λ (b : TailBuffer). b.buf) (capture-eq-write_all chunks empty)
    ∙ write_all-last empty [] chunks (sym (drop_none (0 - limit)))

module _ (codec : Codec) (env : ProxyEnv) (client : String) where
  -- The entry of a reply with the status, whose body has the bytes.
  abbrev pub entry_of : String → ℕ → List ℕ → Entry
  entry_of alias status body = record {
    at = env.recorded_at;
    client = client;
    model = alias;
    status = status;
    tokens = codec.extract body;
  }

  -- The tables after a reply, against those before the request.
  pub data IsRecorded (db : UsageDb) : ClientReply → UsageDb → Type 0 where
    unrecorded :
        (status : ℕ) (message : String) (retry : Bool)
        → IsRecorded db (refused status message retry) db
    refusal :
        (alias : String) (status : ℕ) (message : String) (retry : Bool)
        → IsRecorded db
            (refused status message retry)
            (record_entry env.faults (entry_of alias status []) db)
    response :
        (alias : String) (status : ℕ) (header : Header)
        → IsRecorded db (relayed status header env.chunks) (
            record_entry env.faults
              (entry_of alias status (last usage_capture_limit (stream env.chunks)))
              db)

  module _ (db : UsageDb) (c : Config) (r : Request) where
    abbrev Records : Finished → Type 0
    Records = FinishedSat (λ st. st.usage ≡ db) (λ reply done st. IsRecorded db reply st.usage)

    unrecorded_at :
        (st : ProxyState) (status : ℕ) (message : String) (retry : Bool)
        → st.usage ≡ db
        → IsRecorded db (refused status message retry) st.usage
    unrecorded_at st status message retry e = rw e (unrecorded status message retry)

    refusal_at :
        (st : ProxyState) (alias : String) (status : ℕ) (message : String) (retry : Bool)
        → st.usage ≡ db
        → IsRecorded db
            (refused status message retry)
            (record_usage codec c env client r alias status [] st).usage
    unfolding record_usage
    refusal_at st alias status message retry e = rw e (refusal alias status message retry)

    after_targets-Records :
        (alias : String) (st : ProxyState) (o : Outcome)
        → st.usage ≡ db
        → Records (after_targets codec c env client r alias st o)
    unfolding after_targets relay give_back record_usage
    after_targets-Records alias st (still_waiting p) e = e
    after_targets-Records alias st (aborted p) e = rw e (unrecorded _ _ _)
    after_targets-Records alias st (no_response p) e = rw e (refusal alias _ _ _)
    after_targets-Records alias st (answered p sent answer held) e =
        rw (e, capture-last usage_capture_limit env.chunks) (response alias answer.status _)

    recording-Rules :
        Rules codec c env client r
          (λ st. st.usage ≡ db)
          (λ (t : Unit {0}) st. st.usage ≡ db)
          (λ (t : Unit {0}) reply done st. IsRecorded db reply st.usage)
    unfolding give_back
    recording-Rules = record {
      refuses = λ i st status message retry e. unrecorded_at st status message retry e;
      rejects = λ i st alias e. refusal_at st alias _ _ _ e;
      reads = λ i st e. e;
      discovers = λ i st store e. e;
      targets = λ i st alias model payload e. after_targets-Records alias st _ e;
      admits = λ i st scopes rejected body on_rejected on_body e.
          with_admission-FinishedSat (λ u. u.usage ≡ db)
            (λ reply done u. IsRecorded db reply u.usage)
            (λ held reply done u. IsRecorded db reply u.usage) rejected body st scopes
            env.model_rounds (λ w f. e) (λ a w f no_one. on_rejected i _ e)
            (λ a w held f some_one. on_body i (admitted_state a w st) e) (λ held reply done u v. v);
    }

    close-Records :
        (result : Finished) → Records result → Records (close codec c env client r result)
    close-Records (waiting_for st) v = v
    close-Records (returned reply done st) v = v

-- What a request writes to the usage tables. A response that is relayed is recorded by exactly one
-- entry, for the request's client and with the response's status, and with the token counts of the
-- last 2 MiB of what was relayed. A refusal is recorded by at most one entry, with the status that
-- the client is told and the counts of an empty body. Nothing else is written, and nothing while
-- the request waits for admission.
pub proxy-IsRecorded :
    (codec : Codec) (c : Config) (env : ProxyEnv) (client : String) (r : Request) (body : List ℕ)
    (st : ProxyState)
    → FinishedSat
        (λ u. u.usage ≡ st.usage)
        (λ reply done u. IsRecorded codec env client st.usage reply u.usage)
        (proxy codec c env client r body st)
unfolding proxy give_back
proxy-IsRecorded codec c env client r body st = close-Records codec env client st.usage c r _ (
    with_admission-FinishedSat (λ u. u.usage ≡ st.usage)
      (λ reply done u. IsRecorded codec env client st.usage reply u.usage)
      (λ held reply done u. IsRecorded codec env client st.usage reply u.usage) reject_ingress
      (read_request codec c env client r body) (begin st) (ingress_scopes codec c env client r)
      env.ingress_rounds (λ w f. refl) (λ a w f no_one. unrecorded _ _ _)
      (λ a w held f some_one.
        read_request-Holds (recording-Rules codec env client st.usage c r) tt body
          (admitted_state a w (begin st)) refl)
      (λ held reply done u v. v))
