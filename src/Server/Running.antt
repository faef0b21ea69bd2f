-- ===== src/Server/Running.antt =====
-- The gateway that the server runs: from its start, over any signals.
use shepard.Base.{
  ◌≡◌, refl, some-inj, subst, String, Bool, true, false, Option, none, some, List, [], ◌∷◌, All,
  arith,
}
use shepard.Config.Types.{Config}
use shepard.Config.Defaults.{defaults}
use shepard.Config.Validation.{Parsers, Problem, validate}
use shepard.Queue.{new_request_queue}
use shepard.Acl.{Net, ClientAcl, NewAcl, created, invalid, new_client_acl}
use shepard.Gateway.{
  Gateway, GatewayError, acls_of, trusted_acl, queue_size, made, with_clients, new, reload,
}
use shepard.Gateway.Reloading.{IsReloaded, Reloaded, other_db, refused, done, reload-Reloaded}
use shepard.Server.{
  Loaded, loaded, unreadable, undecodable, rejected, load, checked, decoded, Started, listening,
  with_gateway, start_loaded, start, Warning, answered, on_loaded, Hangup, on_hangups,
}

module _ (net : Net) where
  -- What a request may change: the queue's places and the three caches, and nothing else.
  pub record LeavesConfig (f : Gateway net → Gateway net) : Type 0 where
    pub config : (g : Gateway net) → (f g).config ≡ g.config
    pub acl : (g : Gateway net) → (f g).acl ≡ g.acl
    pub trusted : (g : Gateway net) → (f g).trusted ≡ g.trusted
    pub queue : (g : Gateway net) → (f g).queue.max ≡ g.queue.max
    pub usage_db_path : (g : Gateway net) → (f g).usage_db_path ≡ g.usage_db_path

module _ (net : Net) (parsers : Parsers) where
  -- The configuration in force passed validation with its defaults, and the rest of the gateway is
  -- made of it.
  pub record IsInForce (g : Gateway net) : Type 0 where
    pub given : (c : Config) × (g.config ≡ defaults c)
    pub valid : validate parsers g.config ≡ none
    pub acl : new_client_acl net g.config.server.client_networks ≡ created g.acl
    pub trusted :
        (t : ClientAcl net) × (new_client_acl net g.config.server.trusted_proxy_networks
          ≡ created t)
        × (g.trusted ≡ trusted_acl net g.config.server.trusted_proxy_networks t)
    pub queue : g.queue.max ≡ queue_size g.config.server
    pub usage_db_path : g.usage_db_path ≡ g.config.server.usage_db

  during-IsInForce :
      (f : Gateway net → Gateway net) (g : Gateway net)
      → LeavesConfig net f
      → IsInForce g
      → IsInForce (f g)
  during-IsInForce f g leaves v = record {
    given = rw (leaves.config g) v.given;
    valid = rw (leaves.config g) v.valid;
    acl = rw (leaves.config g, leaves.acl g) v.acl;
    trusted = rw (leaves.config g, leaves.trusted g) v.trusted;
    queue = rw (leaves.config g, leaves.queue g) v.queue;
    usage_db_path = rw (leaves.config g, leaves.usage_db_path g) v.usage_db_path;
  }

  -- What `load` returns was validated.
  pub data IsLoaded : Loaded → Type 0 where
    good : (c : Config) → validate parsers (defaults c) ≡ none → IsLoaded (loaded (defaults c))
    no_file : IsLoaded unreadable
    no_yaml : IsLoaded undecodable
    bad : (problem : Problem) → IsLoaded (rejected problem)

  checked-IsLoaded :
      (c : Config) (problem : Option Problem)
      → validate parsers (defaults c) ≡ problem
      → IsLoaded (checked (defaults c) problem)
  checked-IsLoaded c none e = good c e
  checked-IsLoaded c (some problem) e = bad problem

  decoded-IsLoaded : (given : Option Config) → IsLoaded (decoded parsers given)
  decoded-IsLoaded none = no_yaml
  decoded-IsLoaded (some c) = checked-IsLoaded c (validate parsers (defaults c)) refl

  load-IsLoaded :
      (decode : String → Option Config) (file : Option String) → IsLoaded (load parsers decode file)
  unfolding load
  load-IsLoaded decode none = no_file
  load-IsLoaded decode (some text) = decoded-IsLoaded (decode text)

  reloaded-IsInForce :
      (c : Config) (g g' : Gateway net)
      → validate parsers (defaults c) ≡ none
      → IsReloaded net (defaults c) g g'
      → IsInForce g'
  reloaded-IsInForce c g g' valid is = record {
    given = (c, is.config);
    valid = rw is.config valid;
    acl = rw is.config is.acl;
    trusted = rw is.config is.trusted;
    queue = rw (is.queue, is.config) refl;
    usage_db_path = rw (is.usage_db_path, is.config) refl;
  }

  answered-IsInForce :
      (is_unspecified : net.Ip → Bool) (c : Config) (g : Gateway net)
      (r : Option GatewayError × Gateway net)
      → validate parsers (defaults c) ≡ none
      → IsInForce g
      → Reloaded net (defaults c) g r
      → IsInForce (answered net is_unspecified (defaults c) r).1
  answered-IsInForce is_unspecified c g _ valid v (other_db n) = v
  answered-IsInForce is_unspecified c g _ valid v (refused value e) = v
  answered-IsInForce is_unspecified c g _ valid v (done g' is) = reloaded-IsInForce c g g' valid is

  on_loaded-IsInForce :
      (is_unspecified : net.Ip → Bool) (file : Loaded) (g : Gateway net)
      → IsLoaded file
      → IsInForce g
      → IsInForce (on_loaded net is_unspecified file g).1
  unfolding on_loaded
  on_loaded-IsInForce is_unspecified _ g (good c valid) v =
      answered-IsInForce is_unspecified c g (reload net (defaults c) g) valid v
        (reload-Reloaded net (defaults c) g)
  on_loaded-IsInForce is_unspecified _ g no_file v = v
  on_loaded-IsInForce is_unspecified _ g no_yaml v = v
  on_loaded-IsInForce is_unspecified _ g (bad problem) v = v

  made-IsInForce :
      (c : Config) (g : Gateway net) (clients proxies : NewAcl net)
      → validate parsers (defaults c) ≡ none
      → new_client_acl net (defaults c).server.client_networks ≡ clients
      → new_client_acl net (defaults c).server.trusted_proxy_networks ≡ proxies
      → (made net (defaults c) (with_clients net clients proxies)).1 ≡ some g
      → IsInForce g
  unfolding new_request_queue
  made-IsInForce c g (invalid value) proxies valid e f h = absurd (ground (arith, h))
  made-IsInForce c g (created acl) (invalid value) valid e f h = absurd (ground (arith, h))
  made-IsInForce c g (created acl) (created trusted) valid e f h =
      let same = some-inj h in
      rw (← same) (record {
        given = (c, refl);
        valid = valid;
        acl = e;
        trusted = (trusted, f, refl);
        queue = refl;
        usage_db_path = refl;
      })

  new-IsInForce :
      (opens : Bool) (c : Config) (g : Gateway net)
      → validate parsers (defaults c) ≡ none
      → (new net opens (defaults c)).1 ≡ some g
      → IsInForce g
  unfolding new acls_of
  new-IsInForce false c g valid h = absurd (ground (arith, h))
  new-IsInForce true c g valid h =
      made-IsInForce c g (new_client_acl net (defaults c).server.client_networks)
        (new_client_acl net (defaults c).server.trusted_proxy_networks) valid refl refl h

  -- The gateway that a server listens with, if it gets there.
  abbrev pub ListensWith : (Gateway net → Type 0) → Started net → Type 0
  ListensWith P (listening warning g) = P g
  ListensWith P _ = Unit {0}

  with_gateway-IsInForce :
      (is_unspecified : net.Ip → Bool) (c : Config) (made_one : Option (Gateway net))
      → ((g : Gateway net) → made_one ≡ some g → IsInForce g)
      → ListensWith IsInForce (with_gateway net is_unspecified c made_one)
  with_gateway-IsInForce is_unspecified c none h = tt
  with_gateway-IsInForce is_unspecified c (some g) h = h g refl

  start_loaded-IsInForce :
      (is_unspecified : net.Ip → Bool) (check opens : Bool) (file : Loaded)
      → IsLoaded file
      → ListensWith IsInForce (start_loaded net is_unspecified check opens file)
  unfolding start_loaded
  start_loaded-IsInForce is_unspecified true opens _ (good c valid) = tt
  start_loaded-IsInForce is_unspecified false opens _ (good c valid) =
      with_gateway-IsInForce is_unspecified (defaults c) (new net opens (defaults c)).1
        (λ g h. new-IsInForce opens c g valid h)
  start_loaded-IsInForce is_unspecified check opens _ no_file = tt
  start_loaded-IsInForce is_unspecified check opens _ no_yaml = tt
  start_loaded-IsInForce is_unspecified check opens _ (bad problem) = tt

  on_hangups-IsInForce :
      (is_unspecified : net.Ip → Bool) (decode : String → Option Config) (hs : List (Hangup net))
      (g : Gateway net)
      → All (λ h. LeavesConfig net h.during) hs
      → IsInForce g
      → IsInForce (on_hangups net is_unspecified parsers decode hs g)
  unfolding on_hangups
  on_hangups-IsInForce is_unspecified decode [] g leaves v = v
  on_hangups-IsInForce is_unspecified decode (h ∷ hs) g leaves v =
      on_hangups-IsInForce is_unspecified decode hs _ leaves.1 (
        on_loaded-IsInForce is_unspecified (load parsers decode h.file) (h.during g)
          (load-IsLoaded decode h.file) (during-IsInForce h.during g leaves.0 v))

  listening-IsInForce :
      (is_unspecified : net.Ip → Bool) (check opens : Bool) (file : Loaded)
      (warning : Option Warning) (g : Gateway net)
      → IsLoaded file
      → start_loaded net is_unspecified check opens file ≡ listening warning g
      → IsInForce g
  listening-IsInForce is_unspecified check opens file warning g l e =
      subst (ListensWith IsInForce) e (start_loaded-IsInForce is_unspecified check opens file l)

  -- Take a server that got to its listener, over any reload signals, whatever the file holds at
  -- each, while requests leave the configuration, the ACLs, the queue's size and the database's
  -- path alone. The configuration in force then has its defaults and passed `Validate`; and the
  -- ACLs, the trusted proxies, the queue's size and the usage database are those of that very
  -- configuration.
  pub start-IsInForce :
      (is_unspecified : net.Ip → Bool) (decode : String → Option Config) (check opens : Bool)
      (file : Option String) (warning : Option Warning) (g : Gateway net) (hs : List (Hangup net))
      → start net is_unspecified parsers decode check opens file ≡ listening warning g
      → All (λ h. LeavesConfig net h.during) hs
      → IsInForce (on_hangups net is_unspecified parsers decode hs g)
  unfolding start
  start-IsInForce is_unspecified decode check opens file warning g hs e leaves =
      on_hangups-IsInForce is_unspecified decode hs g leaves (
        listening-IsInForce is_unspecified check opens (load parsers decode file) warning g
          (load-IsLoaded decode file) e)
