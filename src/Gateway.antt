-- ===== src/Gateway.antt =====
-- internal/gateway/gateway.go, `Gateway`: the state that requests share, `New`, `Reload`, and the
-- routes of `ServeHTTP`.
-- `Reload` stores several pointers one after the other; here it is one step, as no request runs
-- between two of them in the steps that are modelled.
pub mod Accounts
pub mod Answers
pub mod Frame
pub mod History
pub mod Reloading
pub mod Responses
pub mod Serving
pub mod Routing
mod Tests
use shepard.Base.{
  ℕ, ◌==◌, string_eq, ◌&&◌, ◌||◌, not, if◌then◌else◌, String, Bool, true, false, Option, none, some,
  List, [], ◌∷◌, ℤ, pos,
}
use shepard.Config.Types.{Config, ServerConfig}
use shepard.Queue.{RequestQueue, new_request_queue, set_max}
use shepard.Limiter
use shepard.Limiter.{LimitStore, new_limit_store}
use shepard.Discovery
use shepard.Discovery.{DiscoveryStore, new_discovery_store}
use shepard.Readiness
use shepard.Readiness.{ReadinessCache, new_readiness_cache}
use shepard.Acl.{
  Net, ClientAcl, NewAcl, created, invalid, new_client_acl, acl_contains, forwarded_client_ip,
}
use shepard.Identity.{Request, header_get, authorized}

-- A queue that is not enabled takes nobody.
unfoldable pub queue_size : ServerConfig → ℤ
queue_size s = elim s.queue.enabled [
  | none ↦ pos 0
  | some enabled ↦ if enabled then s.queue.max_size else pos 0
]

-- Why a gateway is not made or not reloaded. `bad_network` names the value.
pub data GatewayError : Type 0 where
  no_usage_store usage_db_changed : GatewayError
  bad_network : String → GatewayError

-- What `ServeHTTP` comes to: a response of its own, or one of the handlers.
pub data Handler : Type 0 where
  forbidden health ready unauthorized not_found : Handler
  opencode_config models usage_report metrics proxy : Handler

-- The switch, once the client is let in.
unfoldable pub dispatch : Request → Handler
dispatch r =
    if r.method == "GET" && r.path == "/opencode.json"
    then opencode_config
    else if r.method == "GET" && r.path == "/v1/models"
    then models
    else if r.method == "GET" && r.path == "/_shepard/usage"
    then usage_report
    else if r.method == "GET" && r.path == "/_shepard/metrics"
    then metrics
    else if r.method == "POST" && (r.path == "/v1/chat/completions" || r.path == "/v1/responses")
    then proxy
    else not_found

module _ (net : Net) where
  pub record Gateway : Type 0 where
    pub config : Config
    pub acl : ClientAcl net
    pub trusted : Option (ClientAcl net)
    pub discovery : DiscoveryStore
    pub readiness : ReadinessCache
    pub limits : LimitStore
    pub queue : RequestQueue
    pub usage_db_path : String

  -- No list of networks, no ACL to consult.
  unfoldable pub trusted_acl : List String → ClientAcl net → Option (ClientAcl net)
  trusted_acl [] acl = none
  trusted_acl (network ∷ networks) acl = some acl

  -- Both ACLs, or the first error.
  pub data Acls : Type 0 where
    acls_are : ClientAcl net → ClientAcl net → Acls
    acls_fail : String → Acls

  abbrev pub with_trusted : ClientAcl net → NewAcl net → Acls
  with_trusted acl (created trusted) = acls_are acl trusted
  with_trusted acl (invalid value) = acls_fail value

  abbrev pub with_clients : NewAcl net → NewAcl net → Acls
  with_clients (created acl) trusted = with_trusted acl trusted
  with_clients (invalid value) trusted = acls_fail value

  unfoldable pub acls_of : ServerConfig → Acls
  acls_of s =
      with_clients (new_client_acl net s.client_networks)
        (new_client_acl net s.trusted_proxy_networks)

  abbrev pub made : Config → Acls → Option GatewayError × Option Gateway
  made c (acls_fail value) = (some (bad_network value), none)
  made c (acls_are acl trusted) = (
    none,
    some (record {
      config = c;
      acl = acl;
      trusted = trusted_acl c.server.trusted_proxy_networks trusted;
      discovery = new_discovery_store;
      readiness = new_readiness_cache;
      limits = new_limit_store;
      queue = new_request_queue (queue_size c.server);
      usage_db_path = c.server.usage_db;
    }),
  )

  -- `opens` says whether the usage database opens.
  unfoldable pub new : Bool → Config → Option GatewayError × Option Gateway
  unfolding acls_of trusted_acl queue_size
  new opens c = if opens then made c (acls_of c.server) else (some no_usage_store, none)

  abbrev pub reloaded : Config → Gateway → Acls → Option GatewayError × Gateway
  reloaded c g (acls_fail value) = (some (bad_network value), g)
  reloaded c g (acls_are acl trusted) = (
    none,
    record g {
      config = c;
      acl = acl;
      trusted = trusted_acl c.server.trusted_proxy_networks trusted;
      queue = set_max (queue_size c.server) g.queue;
      discovery = Discovery.clear g.discovery;
      readiness = Readiness.clear g.readiness;
      limits = Limiter.clear g.limits;
    },
  )

  unfoldable pub reload : Config → Gateway → Option GatewayError × Gateway
  unfolding acls_of trusted_acl queue_size
  reload c g =
      if not (c.server.usage_db == g.usage_db_path)
      then (some usage_db_changed, g)
      else reloaded c g (acls_of c.server)

  unfoldable pub client_ip : Gateway → Request → Option net.Ip
  unfolding header_get
  client_ip g r =
      forwarded_client_ip net r.remote_addr (header_get "X-Forwarded-For" r.header) g.trusted

  unfoldable pub serve_http : Gateway → Request → Handler
  unfolding dispatch client_ip
  serve_http g r =
      if not (acl_contains net g.acl (client_ip g r))
      then forbidden
      else if r.path == "/healthz"
      then health
      else if r.path == "/readyz"
      then ready
      else if not (authorized r g.config.server.inbound_api_keys)
      then unauthorized
      else dispatch r
