-- ===== src/Gateway/Reloading.antt =====
-- What a reload changes, and when it succeeds.
use shepard.Base.{
  ◌≡◌, refl, sym, ◌==◌, string_eq, String, Option, none, some, [], arith, eq_iff, Bool-cases, inl,
  inr, ◌≢◌,
}
use shepard.Config.Types.{Config}
use shepard.Config.Validation.{Parsers, validate}
use shepard.Queue.{set_max}
use shepard.Limiter
use shepard.Limiter.{LimitStore}
use shepard.Discovery
use shepard.Readiness
use shepard.Acl.{Net, ClientAcl, NewAcl, created, invalid, new_client_acl}
use shepard.Acl.Creation.{AreSame, validate_creates_acls}
use shepard.Gateway.{
  Gateway, GatewayError, usage_db_changed, bad_network, acls_are, acls_fail, acls_of, with_clients,
  trusted_acl, queue_size, reloaded, reload,
}

module _ (net : Net) where
  -- The gateway after a reload with the configuration: all of it is in force, what was cached under
  -- the old one is gone, and what requests hold stays counted.
  pub record IsReloaded (c : Config) (g g' : Gateway net) : Type 0 where
    pub config : g'.config ≡ c
    pub acl : new_client_acl net c.server.client_networks ≡ created g'.acl
    pub trusted :
        (t : ClientAcl net) × (new_client_acl net c.server.trusted_proxy_networks ≡ created t)
        × (g'.trusted ≡ trusted_acl net c.server.trusted_proxy_networks t)
    pub queue : g'.queue ≡ record g.queue { max = queue_size c.server }
    pub discovery : g'.discovery ≡ []
    pub readiness : g'.readiness.expires ≡ none
    pub buckets : g'.limits.buckets ≡ []
    pub concurrent : g'.limits.concurrent ≡ g.limits.concurrent
    pub usage_db_path : g'.usage_db_path ≡ c.server.usage_db

  -- A reload with an error leaves the gateway as it was.
  pub data Reloaded (c : Config) (g : Gateway net)
      : Option GatewayError × Gateway net → Type 0 where
    other_db : c.server.usage_db ≢ g.usage_db_path → Reloaded c g (some usage_db_changed, g)
    refused :
        (value : String)
        → acls_of net c.server ≡ acls_fail value
        → Reloaded c g (some (bad_network value), g)
    done : (g' : Gateway net) → IsReloaded c g g' → Reloaded c g (none, g')

  reloaded-Reloaded :
      (c : Config) (g : Gateway net) (clients proxies : NewAcl net)
      → c.server.usage_db ≡ g.usage_db_path
      → new_client_acl net c.server.client_networks ≡ clients
      → new_client_acl net c.server.trusted_proxy_networks ≡ proxies
      → Reloaded c g (reloaded net c g (with_clients net clients proxies))
  unfolding acls_of set_max Discovery.clear Readiness.clear Limiter.clear
  reloaded-Reloaded c g (invalid value) proxies same e f = refused value (rw e refl)
  reloaded-Reloaded c g (created acl) (invalid value) same e f = refused value (rw (e, f) refl)
  reloaded-Reloaded c g (created acl) (created trusted) same e f = done _ (record {
    config = refl;
    acl = e;
    trusted = (trusted, f, refl);
    queue = refl;
    discovery = refl;
    readiness = refl;
    buckets = refl;
    concurrent = refl;
    usage_db_path = sym same;
  })

  -- A reload with an error leaves the gateway exactly as it was. It has one if the usage database
  -- differs, or if a network of either ACL is refused; and else the new configuration is in force
  -- as a whole.
  pub reload-Reloaded : (c : Config) (g : Gateway net) → Reloaded c g (reload net c g)
  unfolding reload acls_of
  reload-Reloaded c g = elim (Bool-cases (c.server.usage_db == g.usage_db_path)) [
    | inl same ↦ rw same (
        reloaded-Reloaded c g (new_client_acl net c.server.client_networks)
          (new_client_acl net c.server.trusted_proxy_networks)
          ((eq_iff c.server.usage_db g.usage_db_path).0 same) refl refl)
    | inr other ↦
        rw other
          (other_db (λ e. absurd (ground (arith, e, eq_iff c.server.usage_db g.usage_db_path))))
  ]

  -- A reload of that outcome succeeds where the ACLs are created and the database is the same.
  Reloaded-done :
      (c : Config) (g : Gateway net) (acl trusted : ClientAcl net)
      (r : Option GatewayError × Gateway net)
      → Reloaded c g r
      → c.server.usage_db ≡ g.usage_db_path
      → acls_of net c.server ≡ acls_are acl trusted
      → (g' : Gateway net) × (r ≡ (none, g')) × IsReloaded c g g'
  Reloaded-done c g acl trusted _ (other_db n) same e = absurd (n same)
  Reloaded-done c g acl trusted _ (refused value f) same e = absurd (ground (arith, e, f))
  Reloaded-done c g acl trusted _ (done g' is) same e = (g', refl, is)

  -- If the validation's parsers accept what the gateway's do, a configuration that passes
  -- `Validate` and keeps the usage database is reloaded without an error. All of it is in force
  -- then, its ACLs and its queue size included; discovered models, the cached readiness and the
  -- rate buckets are gone; and the requests in flight and in the queue are still counted.
  pub reload_validated :
      (parsers : Parsers) (c : Config) (g : Gateway net)
      → AreSame net parsers
      → validate parsers c ≡ none
      → c.server.usage_db ≡ g.usage_db_path
      → (g' : Gateway net) × (reload net c g ≡ (none, g')) × IsReloaded c g g'
  unfolding acls_of
  reload_validated parsers c g same valid db =
      let ((acl, e), (trusted, f)) = validate_creates_acls net parsers c same valid in
      let both : acls_of net c.server ≡ acls_are acl trusted = rw (e, f) refl in
      Reloaded-done c g acl trusted (reload net c g) (reload-Reloaded c g) db both
