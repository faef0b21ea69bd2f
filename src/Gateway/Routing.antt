-- ===== src/Gateway/Routing.antt =====
-- Who reaches which handler.
use shepard.Base.{
  ◌≡◌, ◌⊎◌, refl, inl, inr, ◌==◌, string_eq, ◌||◌, not, if◌then◌else◌, String, Bool, true, false,
  [], arith, Bool-cases, eq_iff,
}
use shepard.Acl.{Net, acl_contains}
use shepard.Identity.{Request, authorized}
use shepard.Identity.Keys.{CarriesKey, authorized_iff}
use shepard.Gateway.{
  Gateway, Handler, forbidden, health, ready, unauthorized, dispatch, client_ip, serve_http,
}

-- The health probes of the gateway, which need no key.
abbrev pub is_probe : String → Bool
is_probe path = path == "/healthz" || path == "/readyz"

module _ (net : Net) where
  -- The three barriers of a request, by the handler that it reaches.
  pub data Served (g : Gateway net) (r : Request) : Handler → Type 0 where
    refused : acl_contains net g.acl (client_ip net g r) ≡ false → Served g r forbidden
    healthy :
        acl_contains net g.acl (client_ip net g r) ≡ true → r.path ≡ "/healthz" → Served g r health
    readied :
        acl_contains net g.acl (client_ip net g r) ≡ true → r.path ≡ "/readyz" → Served g r ready
    keyless :
        acl_contains net g.acl (client_ip net g r) ≡ true
        → is_probe r.path ≡ false
        → ¬ (
            (g.config.server.inbound_api_keys ≡ []) ⊎ CarriesKey r g.config.server.inbound_api_keys)
        → Served g r unauthorized
    routed :
        acl_contains net g.acl (client_ip net g r) ≡ true
        → is_probe r.path ≡ false
        → (g.config.server.inbound_api_keys ≡ []) ⊎ CarriesKey r g.config.server.inbound_api_keys
        → Served g r (dispatch r)

  -- A request that is let in and is no probe.
  guarded :
      (g : Gateway net) (r : Request)
      → acl_contains net g.acl (client_ip net g r) ≡ true
      → is_probe r.path ≡ false
      → (b : Bool) → authorized r g.config.server.inbound_api_keys ≡ b
      → Served g r (if not b then unauthorized else dispatch r)
  guarded g r in_acl path true e =
      routed in_acl path ((authorized_iff r g.config.server.inbound_api_keys).0 e)
  guarded g r in_acl path false e = keyless in_acl path (λ keys.
      absurd (ground (arith, e, (authorized_iff r g.config.server.inbound_api_keys).1 keys)))

  -- The three barriers of a request. If its client's address is outside the client ACL, it is
  -- forbidden. A client that is let in reaches the two health probes without a key. For any other
  -- path, the request is unauthorized if keys are configured and its `Authorization` header is not
  -- `Bearer ` and a text that, without the spaces around it, is one of them; and else it reaches
  -- the route of its method and path.
  pub serve_http-Served : (g : Gateway net) (r : Request) → Served g r (serve_http net g r)
  unfolding serve_http
  serve_http-Served g r = elim (Bool-cases (acl_contains net g.acl (client_ip net g r))) [
    | inr out ↦ rw out (refused out)
    | inl in_acl ↦ elim (Bool-cases (r.path == "/healthz")) [
      | inl h ↦ rw (in_acl, h) (healthy in_acl ((eq_iff r.path "/healthz").0 h))
      | inr no_health ↦ elim (Bool-cases (r.path == "/readyz")) [
        | inl h ↦ rw (in_acl, no_health, h) (readied in_acl ((eq_iff r.path "/readyz").0 h))
        | inr no_ready ↦
            rw (in_acl, no_health, no_ready)
              (guarded g r in_acl (rw (no_health, no_ready) refl)
                (authorized r g.config.server.inbound_api_keys) refl)
      ]
    ]
  ]
