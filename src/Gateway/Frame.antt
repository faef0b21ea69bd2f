-- ===== src/Gateway/Frame.antt =====
-- What one request can change of the gateway, by the handler that it reaches.
use shepard.Base.{◌≡◌, ◌⊎◌, refl, String, true, false, Option, some, [], ◌∷◌, insert}
use shepard.Acl.{Net, acl_contains}
use shepard.Identity.{Request}
use shepard.Identity.Keys.{CarriesKey}
use shepard.Proxy.State.{Codec, Finished, waiting_for, returned}
use shepard.Gateway.{
  Handler, forbidden, health, ready, unauthorized, not_found, opencode_config, models, usage_report,
  metrics, proxy, dispatch, client_ip, serve_http,
}
use shepard.Gateway.Responses.{Written, Formats, write_api_error}
use shepard.Gateway.Routing.{
  is_probe, Served, serve_http-Served, refused, healthy, readied, keyless, routed,
}
use shepard.Gateway.Serving.{
  Visit, World, with_readiness, with_discovery, seen_by_proxy, after_proxy, proxied, serve_handler,
  serve,
}

module _ (net : Net) where
  -- Which part of the state a handler may change.
  abbrev pub Keeps : Handler → World net → World net → Type 0
  Keeps ready w w' = w' ≡ with_readiness net w w'.gateway.readiness
  Keeps opencode_config w w' = w' ≡ with_discovery net w w'.gateway.discovery
  Keeps models w w' = w' ≡ with_discovery net w w'.gateway.discovery
  Keeps proxy w w' = w' ≡ after_proxy net w (seen_by_proxy net w')
  Keeps h w w' = w' ≡ w

  module _ (digest : String → String) (codec : Codec) (f : Formats) (v : Visit) (r : Request)
      (w : World net) where
    proxied-Keeps : (x : Finished) → Keeps proxy w (proxied net w x).1
    proxied-Keeps (waiting_for st) = refl
    proxied-Keeps (returned reply completed st) = refl

    pub serve_handler-Keeps : (h : Handler) → Keeps h w (serve_handler net digest codec f v r w h).1
    unfolding serve_handler
    serve_handler-Keeps forbidden = refl
    serve_handler-Keeps health = refl
    serve_handler-Keeps ready = refl
    serve_handler-Keeps unauthorized = refl
    serve_handler-Keeps not_found = refl
    serve_handler-Keeps opencode_config = refl
    serve_handler-Keeps models = refl
    serve_handler-Keeps usage_report = refl
    serve_handler-Keeps metrics = refl
    serve_handler-Keeps proxy = proxied-Keeps _

  -- The response and the state after a request, by what its client may do.
  pub data Guarded (w : World net) (r : Request) : Option Written × World net → Type 0 where
    outside :
        acl_contains net w.gateway.acl (client_ip net w.gateway r) ≡ false
        → Guarded w r (some (write_api_error [] 403 "client network is not allowed"), w)
    probing :
        (x : Option Written × World net)
        → acl_contains net w.gateway.acl (client_ip net w.gateway r) ≡ true
        → is_probe r.path ≡ true
        → x.1 ≡ with_readiness net w x.1.gateway.readiness
        → Guarded w r x
    without_key :
        acl_contains net w.gateway.acl (client_ip net w.gateway r) ≡ true
        → is_probe r.path ≡ false
        → ¬ (
            (w.gateway.config.server.inbound_api_keys ≡ [])
            ⊎ CarriesKey r w.gateway.config.server.inbound_api_keys)
        → Guarded w r (
          some (
              write_api_error (insert "WWW-Authenticate" ("Bearer" ∷ []) []) 401 "invalid API key"),
          w,
        )
    let_in :
        (x : Option Written × World net)
        → acl_contains net w.gateway.acl (client_ip net w.gateway r) ≡ true
        → is_probe r.path ≡ false
        → (w.gateway.config.server.inbound_api_keys ≡ [])
          ⊎ CarriesKey r w.gateway.config.server.inbound_api_keys
        → Keeps (dispatch r) w x.1
        → Guarded w r x

  module _ (digest : String → String) (codec : Codec) (f : Formats) (v : Visit) (r : Request)
      (w : World net) where
    Served-Guarded :
        (h : Handler)
        → Served net w.gateway r h
        → Guarded w r (serve_handler net digest codec f v r w h)
    unfolding serve_handler
    Served-Guarded _ (refused out) = outside out
    Served-Guarded _ (healthy in_acl path) = probing _ in_acl (rw path refl) refl
    Served-Guarded _ (readied in_acl path) = probing _ in_acl (rw path refl) refl
    Served-Guarded _ (keyless in_acl path key) = without_key in_acl path key
    Served-Guarded _ (routed in_acl path key) =
        let_in _ in_acl path key (serve_handler-Keeps digest codec f v r w (dispatch r))

    -- What a client may do, as the response and the state after its request. From outside the
    -- client ACL it gets a 403 and nothing changes. A probe's path changes at most the cached
    -- readiness. On any other path, where keys are configured and it carries none of them, it gets
    -- a 401 and nothing changes; and else the request changes at most what its route may: the
    -- listings the discovered models, the reports nothing, the proxy neither the configuration, the
    -- ACLs nor the cached readiness.
    pub serve-Guarded : Guarded w r (serve net digest codec f v r w)
    unfolding serve
    serve-Guarded = Served-Guarded (serve_http net w.gateway r) (serve_http-Served net w.gateway r)
