-- ===== src/Proxy/Frame.antt =====
-- The induction over the handler: what its steps keep holds of the whole, from the reading of the
-- request on.
use shepard.Base.{
  ℕ, String, Bool, false, Option, none, some, List, [], lookup, length, ◌==◌, string_eq, ◌||◌, ltb,
  pos_part, Option-cases, Bool-cases, inl, inr,
}
use shepard.Config.Types.{ModelConfig, Config}
use shepard.Limiter.{AdmissionScope}
use shepard.Discovery.{
  DiscoveryStore, Resolved, found, unknown, undiscovered, resolve_discovered_model,
}
use shepard.Payload.{Payload, apply_system_prompt}
use shepard.Failover.Targets.{run_targets}
use shepard.Identity.{Request}
use shepard.Proxy.{
  record_usage, after_targets, send_targets, reject_model, serve_model, after_resolution,
  find_and_serve, serve_payload, decode_payload, read_request,
}
use shepard.Proxy.State.{
  ProxyState, ProxyEnv, ClientReply, refused, rate_limited, Finished, Codec, set_shared,
  with_admission, alias_of,
}
use shepard.Proxy.Flow.{FinishedSat}

-- What a property of the handler has to show: `Open` holds while it runs and `Closed` when it
-- returns, both at an index that an admission may change.
pub record Rules (codec : Codec) (c : Config) (env : ProxyEnv) (client : String) (r : Request)
    {I : Type 0} (W : ProxyState → Type 0) (Open : I → ProxyState → Type 0)
    (Closed : I → ClientReply → Bool → ProxyState → Type 0) : Type 0 where
  pub refuses :
      (i : I) (st : ProxyState) (status : ℕ) (message : String) (retry : Bool)
      → Open i st
      → Closed i (refused status message retry) false st
  pub rejects :
      (i : I) (st : ProxyState) (alias : String)
      → Open i st
      → Closed i rate_limited false (record_usage codec c env client r alias 429 [] st)
  pub reads :
      (i : I) (st : ProxyState) → Open i st → Open i (set_shared (env.during_read st.shared) st)
  pub discovers :
      (i : I) (st : ProxyState) (store : DiscoveryStore)
      → Open i st
      → Open i (record (set_shared (env.during_discovery st.shared) st) { discovery = store })
  pub targets :
      (i : I) (st : ProxyState) (alias : String) (model : ModelConfig) (payload : Payload)
      → Open i st
      → FinishedSat W (Closed i) (
          after_targets codec c env client r alias st
            (run_targets codec.marshal c.providers payload r.path model env.attempts st.shared))
  pub admits :
      (i : I) (st : ProxyState) (scopes : List AdmissionScope)
      (rejected body : ProxyState → Finished)
      → ((j : I) (u : ProxyState) → Open j u → FinishedSat W (Closed j) (rejected u))
      → ((j : I) (u : ProxyState) → Open j u → FinishedSat W (Closed j) (body u))
      → Open i st
      → FinishedSat W (Closed i) (with_admission scopes env.model_rounds rejected body st)

module _ {codec : Codec} {c : Config} {env : ProxyEnv} {client : String} {r : Request} {I : Type 0}
    {W : ProxyState → Type 0} {Open : I → ProxyState → Type 0}
    {Closed : I → ClientReply → Bool → ProxyState → Type 0}
    (rules : Rules codec c env client r W Open Closed) where
  abbrev Holds : I → Finished → Type 0
  Holds i = FinishedSat W (Closed i)

  send_targets-Holds :
      (i : I) (alias : String) (model : ModelConfig) (payload : Payload) (st : ProxyState)
      → Open i st
      → Holds i (send_targets codec c env client r alias model payload st)
  unfolding send_targets
  send_targets-Holds i alias model payload st v =
      elim (Option-cases (
        apply_system_prompt payload r.path model.prepend_system_prompt
          model.append_system_prompt)) [
            | inl bad ↦ rw (bad, send_targets) (rules.refuses i st _ _ _ v)
            | inr (prompted, good) ↦ rw (good, send_targets) (rules.targets i st alias model _ v)
          ]

  serve_model-Holds :
      (i : I) (alias : String) (payload : Payload) (model : ModelConfig) (st : ProxyState)
      → Open i st
      → Holds i (serve_model codec c env client r alias payload model st)
  unfolding serve_model reject_model
  serve_model-Holds i alias payload model st =
      rules.admits i st _ (reject_model codec c env client r alias)
        (send_targets codec c env client r alias model payload) (λ j u v. rules.rejects j u alias v)
        (λ j u. send_targets-Holds j alias model payload u)

  find_and_serve-Holds :
      (i : I) (alias : String) (payload : Payload) (st : ProxyState)
      → Open i st
      → Holds i (find_and_serve codec c env client r alias payload st)
  unfolding find_and_serve after_resolution
  find_and_serve-Holds i alias payload st v = elim (Option-cases (lookup alias c.models)) [
    | inr (model, configured) ↦
        rw (configured, find_and_serve) (serve_model-Holds i alias payload model st v)
    | inl missing ↦
        rw (missing, find_and_serve)
          (resolved (resolve_discovered_model env.answers c.providers alias st.discovery))
  ]
    where
      resolved :
          (result : Resolved × DiscoveryStore)
          → Holds i (
              after_resolution codec c env client r alias payload
                (set_shared (env.during_discovery st.shared) st)
                result)
      resolved (undiscovered error, store) = rules.refuses i _ _ _ _ (rules.discovers i st store v)
      resolved (unknown, store) = rules.refuses i _ _ _ _ (rules.discovers i st store v)
      resolved (found model, store) =
          serve_model-Holds i alias payload model _ (rules.discovers i st store v)

  decode_payload-Holds :
      (i : I) (decoded : Option Payload) (st : ProxyState)
      → Open i st
      → Holds i (decode_payload codec c env client r decoded st)
  unfolding serve_payload
  decode_payload-Holds i none st v = rules.refuses i st _ _ _ v
  decode_payload-Holds i (some payload) st v =
      elim (Bool-cases (alias_of (lookup "model" payload) == "")) [
        | inl empty ↦ rw (empty, serve_payload) (rules.refuses i st _ _ _ v)
        | inr named ↦
            rw (named, serve_payload)
              (find_and_serve-Holds i (alias_of (lookup "model" payload)) payload st v)
      ]

  pub read_request-Holds :
      (i : I) (body : List ℕ) (st : ProxyState)
      → Open i st
      → Holds i (read_request codec c env client r body st)
  unfolding read_request
  read_request-Holds i body st v =
      elim (Bool-cases
        (env.read_fails || ltb (pos_part c.server.max_request_bytes) (length body))) [
          | inl bad ↦ rw (bad, read_request) (rules.refuses i _ _ _ _ (rules.reads i st v))
          | inr good ↦
              rw (good, read_request)
                (decode_payload-Holds i (codec.unmarshal body) _ (rules.reads i st v))
        ]
