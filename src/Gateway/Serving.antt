-- ===== src/Gateway/Serving.antt =====
-- internal/gateway/gateway.go, `ServeHTTP` with the handlers that it calls: what one request does to
-- the gateway, and the response that it gets. What other requests do meanwhile is in the
-- environments of the handlers; the state is shown as this request alone changes it.
use mathlib.Core.Option
use shepard.Base.{ℕ, String, Bool, Option, none, some, List, [], ◌∷◌, insert}
use shepard.Json.{str, obj, to_fields}
use shepard.Queue.{depth}
use shepard.Discovery
use shepard.Discovery.{DiscoveryStore, Survey, discover_all}
use shepard.Readiness.{ReadinessCache}
use shepard.Readiness.Handling.{Probing, Wakeup, Readied, cached_readiness, answer_of}
use shepard.Usage.{UsageDb}
use shepard.Usage.Answers
use shepard.Metrics
use shepard.Catalog
use shepard.Acl.{Net}
use shepard.Identity.{Request, client_identity}
use shepard.Proxy.State.{Metrics, ProxyState, ProxyEnv, Codec, Finished, waiting_for, returned}
use shepard.Proxy
use shepard.Gateway.{
  Gateway, Handler, forbidden, health, ready, unauthorized, not_found, opencode_config, models,
  usage_report, metrics, proxy, serve_http,
}
use shepard.Gateway.Responses.{
  Written, text, Formats, write_json, write_api_error, write_reply, write_health, write_usage,
  write_opencode,
}

-- What one request meets: its body and its query, the time, and what the handlers wait for.
pub record Visit : Type 0 where
  pub body : List ℕ
  pub period : String
  pub client : String
  pub query_fails : Bool
  pub now : ℕ
  pub probing : Probing
  pub wakeups : List Wakeup
  pub answers : String → Discovery.Answer
  pub proxying : ProxyEnv

module _ (net : Net) where
  -- The gateway with the clock of its limiter, its counters and its tables.
  pub record World : Type 0 where
    pub gateway : Gateway net
    pub clock : ℕ
    pub metrics : Metrics
    pub usage : UsageDb

  -- The part of the state that `proxy` reads and changes.
  abbrev pub seen_by_proxy : World → ProxyState
  seen_by_proxy w = record {
    shared = (w.gateway.queue, (w.clock, w.gateway.limits));
    metrics = w.metrics;
    discovery = w.gateway.discovery;
    usage = w.usage;
  }

  abbrev pub after_proxy : World → ProxyState → World
  after_proxy w st = record {
    gateway = record w.gateway {
      queue = st.shared.0;
      limits = st.shared.1.1;
      discovery = st.discovery;
    };
    clock = st.shared.1.0;
    metrics = st.metrics;
    usage = st.usage;
  }

  abbrev pub with_readiness : World → ReadinessCache → World
  with_readiness w c = record w { gateway = record w.gateway { readiness = c } }

  abbrev pub with_discovery : World → DiscoveryStore → World
  with_discovery w s = record w { gateway = record w.gateway { discovery = s } }

  -- `none` while the request waits.
  abbrev pub proxied : World → Finished → Option Written × World
  proxied w (waiting_for st) = (none, after_proxy w st)
  proxied w (returned reply completed st) = (some (write_reply reply), after_proxy w st)

  abbrev pub probed : World → Readied × ReadinessCache → Option Written × World
  probed w (r, c) = (Option.map write_health (answer_of r), with_readiness w c)

  abbrev pub with_survey : World → (Survey → Written) → Survey → Option Written × World
  with_survey w write v = (some (write v), with_discovery w v.store)

  -- The clients' rate limits are by the client's identity, which is found anew from the request.
  unfoldable pub serve_handler :
      (String → String)
      → Codec
      → Formats
      → Visit
      → Request
      → World
      → Handler
      → Option Written × World
  serve_handler digest codec f v r w forbidden =
      (some (write_api_error [] 403 "client network is not allowed"), w)
  serve_handler digest codec f v r w health =
      (some (write_json 200 (obj (to_fields (("status", str "ok") ∷ [])))), w)
  serve_handler digest codec f v r w ready =
      probed w (cached_readiness v.probing v.now v.wakeups w.gateway.readiness)
  serve_handler digest codec f v r w unauthorized = (
    some (write_api_error (insert "WWW-Authenticate" ("Bearer" ∷ []) []) 401 "invalid API key"),
    w,
  )
  serve_handler digest codec f v r w opencode_config =
      with_survey w (λ s. write_opencode (Catalog.opencode_config r w.gateway.config.models s.all))
        (discover_all v.answers w.gateway.config.providers w.gateway.discovery)
  serve_handler digest codec f v r w models =
      with_survey w (λ s. write_json 200 (Catalog.models_body w.gateway.config.models s.all))
        (discover_all v.answers w.gateway.config.providers w.gateway.discovery)
  serve_handler digest codec f v r w usage_report =
      (some (write_usage f (Answers.usage_report v.query_fails v.period v.client w.usage)), w)
  serve_handler digest codec f v r w metrics = (
    some (record {
      status = 200;
      header = insert "Content-Type" ("text/plain; version=0.0.4" ∷ []) [];
      content =
          text (
            Metrics.write_prometheus f.show_count f.show_seconds w.metrics (depth w.gateway.queue));
    }),
    w,
  )
  serve_handler digest codec f v r w proxy = proxied w (
      Proxy.proxy codec w.gateway.config v.proxying (client_identity net digest r w.gateway.trusted)
        r v.body (seen_by_proxy w))
  serve_handler digest codec f v r w not_found =
      (some (write_api_error [] 404 "route not found"), w)

  unfoldable pub serve :
      (String → String) → Codec → Formats → Visit → Request → World → Option Written × World
  unfolding serve_http serve_handler
  serve digest codec f v r w = serve_handler digest codec f v r w (serve_http net w.gateway r)
