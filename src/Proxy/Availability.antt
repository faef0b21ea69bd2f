-- ===== src/Proxy/Availability.antt =====
-- The gateway answers if it can: a request that is admitted and well formed, for a model with a
-- target that responds, is answered with a provider's response.
use shepard.Base.{
  ℕ, ◌≤◌, ◌≡◌, refl, String, false, some, List, [], ◌∷◌, lookup, length, pos_part, ltb, ◌==◌,
  string_eq, ◌||◌, arith, ap,
}
use shepard.Base.Text.{◌<>◌}
use shepard.Json.{str}
use shepard.Config.Types.{Config, ModelConfig, resolved_targets}
use shepard.Queue.{Round, Admission}
use shepard.Limiter.{AdmissionScope, LimitStore}
use shepard.Admission.{Shared, admit_with_queue}
use shepard.Payload.{Payload, apply_system_prompt, apply_request_overrides}
use shepard.Failover.Targets.{Outcome, answered, no_response, still_waiting, aborted}
use shepard.Failover.Retry.{retryable_status}
use shepard.Failover.Availability.{AreOpen, IsAvailable, IsAnswered, run_targets-IsAnswered}
use shepard.Identity.{Request}
use shepard.Proxy.{
  relay, after_targets, send_targets, reject_model, serve_model, find_and_serve, serve_payload,
  read_request, close, ingress_scopes, proxy,
}
use shepard.Proxy.State.{
  ProxyState, ProxyEnv, ClientReply, refused, relayed, Finished, waiting_for, returned, Codec,
  finally, give_back, after_wait, admitted_or, with_admission, begin, reject_ingress, alias_of,
}

-- A provider's response that is no status of a retry or a failover.
abbrev pub IsGoodReply : ClientReply → Type 0
IsGoodReply (refused status message retry) = ⊥
IsGoodReply (relayed status header chunks) = retryable_status status ≡ false

-- The handler returned such a response.
abbrev pub IsRelayed : Finished → Type 0
IsRelayed (waiting_for st) = ⊥
IsRelayed (returned reply completed st) = IsGoodReply reply

-- Admission: the scopes that are held, and what is shared then.
abbrev pub Admits : List AdmissionScope → List (Round (ℕ × LimitStore)) → Shared → Shared → Type 0
Admits scopes rounds w w' =
    (a : Admission (List AdmissionScope)) × (held : List AdmissionScope) × (admit_with_queue scopes
        rounds w
      ≡ (some a, w'))
    × (a.release ≡ some held)

-- What a request needs to be served, from what is shared when it comes.
pub record IsServable (codec : Codec) (c : Config) (env : ProxyEnv) (client : String) (r : Request)
    (body : List ℕ) (w : Shared) : Type 1 where
  pub alias : String
  pub payload : Payload
  pub model : ModelConfig
  pub prompted : Payload
  pub entered : Shared
  pub begun : Shared
  pub Fit : Shared → Type 0
  pub let_in : Admits (ingress_scopes codec c env client r) env.ingress_rounds w entered
  pub readable : env.read_fails ≡ false
  pub fits : length body ≤ pos_part c.server.max_request_bytes
  pub decodes : codec.unmarshal body ≡ some payload
  pub asks : lookup "model" payload ≡ some (str alias)
  pub named : (alias == "") ≡ false
  pub configured : lookup alias c.models ≡ some model
  pub admitted :
      Admits
        (record { key = "model:" <> alias; limits = model.limits } ∷ [])
        env.model_rounds
        (env.during_read entered)
        begun
  pub prompts :
      apply_system_prompt payload r.path model.prepend_system_prompt model.append_system_prompt
      ≡ some prompted
  pub fit : Fit begun
  pub targets_open :
      AreOpen Fit codec.marshal c.providers
        (apply_request_overrides prompted model.overrides)
        r.path
        model.retries
        env.attempts
        0
        (resolved_targets model)
  pub available :
      IsAvailable Fit codec.marshal c.providers
        (apply_request_overrides prompted model.overrides)
        r.path
        model.retries
        env.attempts
        0
        (resolved_targets model)

finally-IsRelayed :
    (f : ProxyState → ProxyState) (result : Finished)
    → IsRelayed result
    → IsRelayed (finally f result)
finally-IsRelayed f (waiting_for st) h = absurd h
finally-IsRelayed f (returned reply completed st) h = h

with_admission-IsRelayed :
    (scopes : List AdmissionScope) (rounds : List (Round (ℕ × LimitStore)))
    (rejected body : ProxyState → Finished) (st : ProxyState) (w' : Shared)
    → Admits scopes rounds st.shared w'
    → ((u : ProxyState) → u.shared ≡ w' → IsRelayed (body u))
    → IsRelayed (with_admission scopes rounds rejected body st)
unfolding with_admission after_wait
with_admission-IsRelayed scopes rounds rejected body st w' (a, held, e, f) h =
    rw (e, f, admitted_or) (finally-IsRelayed (give_back held) _ (h _ refl))

module _ (codec : Codec) (c : Config) (env : ProxyEnv) (client : String) (r : Request) where
  after_targets-IsRelayed :
      (alias : String) (st : ProxyState) (o : Outcome)
      → IsAnswered o
      → IsRelayed (after_targets codec c env client r alias st o)
  unfolding after_targets relay
  after_targets-IsRelayed alias st (still_waiting p) a = absurd a
  after_targets-IsRelayed alias st (aborted p) a = absurd a
  after_targets-IsRelayed alias st (no_response p) a = absurd a
  after_targets-IsRelayed alias st (answered p sent response held) a = a

  close-IsRelayed :
      (result : Finished) → IsRelayed result → IsRelayed (close codec c env client r result)
  close-IsRelayed (waiting_for st) h = absurd h
  close-IsRelayed (returned reply completed st) h = h

  module _ (body : List ℕ) (w : Shared) (s : IsServable codec c env client r body w) where
    send_targets-IsRelayed :
        (st : ProxyState)
        → st.shared ≡ s.begun
        → IsRelayed (send_targets codec c env client r s.alias s.model s.payload st)
    unfolding send_targets
    send_targets-IsRelayed st e =
        rw (s.prompts, send_targets)
          (after_targets-IsRelayed s.alias st _ (
            run_targets-IsAnswered s.Fit codec.marshal c.providers
              (apply_request_overrides s.prompted s.model.overrides) r.path s.model.retries
              env.attempts s.model st.shared refl s.targets_open s.available (rw e s.fit)))

    serve_model-IsRelayed :
        (st : ProxyState)
        → st.shared ≡ env.during_read s.entered
        → IsRelayed (serve_model codec c env client r s.alias s.payload s.model st)
    unfolding serve_model
    serve_model-IsRelayed st e =
        with_admission-IsRelayed
          (record { key = "model:" <> s.alias; limits = s.model.limits } ∷ []) env.model_rounds
          (reject_model codec c env client r s.alias)
          (send_targets codec c env client r s.alias s.model s.payload) st s.begun (rw e s.admitted)
          send_targets-IsRelayed

    find_and_serve-IsRelayed :
        (st : ProxyState)
        → st.shared ≡ env.during_read s.entered
        → IsRelayed (find_and_serve codec c env client r s.alias s.payload st)
    unfolding find_and_serve
    find_and_serve-IsRelayed st e = rw (s.configured, find_and_serve) (serve_model-IsRelayed st e)

    serve_payload-IsRelayed :
        (st : ProxyState)
        → st.shared ≡ env.during_read s.entered
        → IsRelayed (serve_payload codec c env client r s.payload st)
    unfolding serve_payload
    serve_payload-IsRelayed st e =
        let aliased : alias_of (lookup "model" s.payload) ≡ s.alias = rw s.asks refl in
        rw (aliased, s.named) (find_and_serve-IsRelayed st e)

    read_request-IsRelayed :
        (st : ProxyState)
        → st.shared ≡ s.entered
        → IsRelayed (read_request codec c env client r body st)
    unfolding read_request
    read_request-IsRelayed st e =
        let test : (env.read_fails || ltb (pos_part c.server.max_request_bytes) (length body))
            ≡ false =
          ground (arith, s.readable, s.fits) in
        rw (test, s.decodes) (serve_payload-IsRelayed _ (ap env.during_read e))

-- A request is answered with a provider's response, of a status that is no reason for a retry or a
-- failover, when it is admitted with its client and for its model, its body is read within the
-- limit and decodes to a payload for a configured model, the prompts can be added, the payload can
-- be encoded for each of the model's targets, no attempt, from any state of the queue and the
-- limiter in a set that the attempts do not leave, is refused by its provider's limits, none finds
-- its context at an end, and one of the targets gives such a response within its attempts, with
-- only errors and passing statuses before. What other targets answer is then retried or passed
-- over.
pub proxy-IsRelayed :
    (codec : Codec) (c : Config) (env : ProxyEnv) (client : String) (r : Request) (body : List ℕ)
    (st : ProxyState)
    → IsServable codec c env client r body st.shared
    → IsRelayed (proxy codec c env client r body st)
unfolding proxy
proxy-IsRelayed codec c env client r body st s = close-IsRelayed codec c env client r _ (
    with_admission-IsRelayed (ingress_scopes codec c env client r) env.ingress_rounds reject_ingress
      (read_request codec c env client r body) (begin st) s.entered s.let_in
      (read_request-IsRelayed codec c env client r body st.shared s))
