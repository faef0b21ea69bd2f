-- ===== src/Proxy.antt =====
-- internal/gateway/gateway.go, `proxy`: one request from its admission to its answer. The target
-- loop is Failover; here are the steps before and after it and what they leave behind.
-- The counters, the tables and the discovery store are shown as this request alone changes them;
-- what other goroutines do to the queue and the limiter is in the environment.
pub mod Availability
pub mod Flow
pub mod Frame
pub mod Accounting
pub mod Samples
pub mod Recording
pub mod Slots
pub mod State
pub mod Ending
mod Tests
use shepard.Base.{
  ℕ, ◌+◌, ◌-◌, ltb, ◌==◌, string_eq, ◌||◌, if◌then◌else◌, String, Bool, true, false, Option, none,
  some, List, [], ◌∷◌, Map, lookup, length, pos, pos_part,
}
use shepard.Base.Text.{◌<>◌}
use shepard.Json.{Json, str}
use shepard.Config.Types.{Limits, ModelConfig, Config}
use shepard.Queue.{Round, Admission}
use shepard.Limiter.{AdmissionScope, LimitStore, release}
use shepard.Admission.{Shared, admit_with_queue}
use shepard.Payload.{Payload, apply_system_prompt, apply_request_overrides}
use shepard.Headers.{Header, copy_response_headers}
use shepard.Buffers.{TailBuffer, write_tail}
use shepard.Usage.{UsageDb, Instant, Faults, Entry, record_entry}
use shepard.Discovery.{
  DiscoveryStore, Answer, Resolved, found, unknown, undiscovered, resolve_discovered_model,
}
use shepard.Identity.{Request}
use shepard.Failover.Retry.{Response, Attempt, Sent, Progress}
use shepard.Failover.Targets.{
  Outcome, no_response, still_waiting, aborted, answered, run_targets, failure, Failure,
}
use shepard.Proxy.State.{
  ClientReply, Codec, Finished, Metrics, ProxyEnv, ProxyState, absorb, admitted_or, after_wait,
  alias_of, begin, capture, count_rejection, count_wait, finally, give_back, rate_limited, refused,
  reject_ingress, relayed, reply_of, returned, set_shared, usage_capture_limit, waiting_for,
  with_admission,
}

module _ (codec : Codec) (c : Config) (env : ProxyEnv) (client : String) (r : Request) where
  unfoldable pub record_usage : String → ℕ → List ℕ → ProxyState → ProxyState
  record_usage alias status body st = record st {
    usage =
        record_entry env.faults
          (record {
            at = env.recorded_at;
            client = client;
            model = alias;
            status = status;
            tokens = codec.extract body;
          })
          st.usage;
  }

  -- From the commit of the headers on, nothing is retried.
  unfoldable pub relay : String → Response → ProxyState → Finished
  unfolding record_usage capture
  relay alias response st =
      let tail = capture env.chunks (record { buf = []; limit = usage_capture_limit }) in
      let relaying = record st {
        metrics = record st.metrics { completed = st.metrics.completed + 1 };
        shared = env.during_relay st.shared;
      } in
      returned (relayed response.status (copy_response_headers [] response.header) env.chunks) true
        (record_usage alias response.status tail.buf relaying)

  unfoldable pub after_targets : String → ProxyState → Outcome → Finished
  unfolding relay record_usage give_back
  after_targets alias st (still_waiting p) = waiting_for (absorb p st)
  after_targets alias st (aborted p) =
      returned (refused 500 "could not encode upstream request" false) false (absorb p st)
  after_targets alias st (no_response p) =
      let f = failure env.deadline_exceeded p in
      returned (reply_of f) false (record_usage alias f.status [] (absorb p st))
  after_targets alias st (answered p sent response held) =
      finally (give_back held) (relay alias response (absorb p st))

  unfoldable pub send_targets : String → ModelConfig → Payload → ProxyState → Finished
  unfolding after_targets
  send_targets alias model payload st =
      elim (apply_system_prompt payload r.path model.prepend_system_prompt
        model.append_system_prompt) [
          | none ↦ returned (refused 400 "messages must be an array" false) false st
          | some prompted ↦ after_targets alias st (
              run_targets codec.marshal c.providers
                (apply_request_overrides prompted model.overrides) r.path model env.attempts
                st.shared)
        ]

  -- A refusal for the model is recorded; one at the ingress is not.
  unfoldable pub reject_model : String → ProxyState → Finished
  unfolding record_usage
  reject_model alias st = returned rate_limited false (record_usage alias 429 [] st)

  unfoldable pub serve_model : String → Payload → ModelConfig → ProxyState → Finished
  unfolding send_targets reject_model with_admission
  serve_model alias payload model =
      with_admission (record { key = "model:" <> alias; limits = model.limits } ∷ [])
        env.model_rounds (reject_model alias) (send_targets alias model payload)

  unfoldable pub after_resolution :
      String → Payload → ProxyState → Resolved × DiscoveryStore → Finished
  unfolding serve_model
  after_resolution alias payload st (undiscovered error, store) =
      returned (refused 502 "could not query provider models" false) false
        (record st { discovery = store })
  after_resolution alias payload st (unknown, store) =
      returned (refused 404 ("unknown model \"" <> alias <> "\"") false) false
        (record st { discovery = store })
  after_resolution alias payload st (found model, store) =
      serve_model alias payload model (record st { discovery = store })

  -- A configured model, or else a discovered one.
  unfoldable pub find_and_serve : String → Payload → ProxyState → Finished
  unfolding after_resolution
  find_and_serve alias payload st = elim (lookup alias c.models) [
    | some model ↦ serve_model alias payload model st
    | none ↦
        after_resolution alias payload (set_shared (env.during_discovery st.shared) st)
          (resolve_discovered_model env.answers c.providers alias st.discovery)
  ]

  unfoldable pub serve_payload : Payload → ProxyState → Finished
  unfolding find_and_serve
  serve_payload payload st =
      let alias = alias_of (lookup "model" payload) in
      if alias == ""
      then returned (refused 400 "model must be a string" false) false st
      else find_and_serve alias payload st

  abbrev pub decode_payload : Option Payload → ProxyState → Finished
  decode_payload none st = returned (refused 400 "request body must be valid JSON" false) false st
  decode_payload (some payload) st = serve_payload payload st

  -- The body is read once the ingress and the client are admitted, up to a byte more than the limit.
  unfoldable pub read_request : List ℕ → ProxyState → Finished
  unfolding serve_payload
  read_request body st =
      let st' = set_shared (env.during_read st.shared) st in
      if env.read_fails || ltb (pos_part c.server.max_request_bytes) (length body)
      then returned (refused 413 "request body is too large" false) false st'
      else decode_payload (codec.unmarshal body) st'

  abbrev pub ingress_scopes : List AdmissionScope
  ingress_scopes =
      record {
        key = "ingress";
        limits = record {
          requests_per_minute = pos 0;
          burst = pos 0;
          max_concurrent = c.server.max_concurrent_requests;
        };
      }
      ∷ record { key = "client:" <> client; limits = c.server.client_limits }
      ∷ []

  -- The deferred function that closes the counters.
  unfoldable pub close_metrics : Bool → Metrics → Metrics
  close_metrics completed m = record m {
    active = m.active - 1;
    duration_nanos = m.duration_nanos + env.elapsed;
    failed = if completed then m.failed else m.failed + 1;
  }

  abbrev pub close : Finished → Finished
  close (waiting_for st) = waiting_for st
  close (returned reply completed st) =
      returned reply completed (record st { metrics = close_metrics completed st.metrics })

  unfoldable pub proxy : List ℕ → ProxyState → Finished
  unfolding read_request with_admission close_metrics
  proxy body st = close (
      with_admission ingress_scopes env.ingress_rounds reject_ingress (read_request body)
        (begin st))
