-- ===== src/Gateway/History.antt =====
-- Requests and reloads one after the other, with whatever the handlers' environments hold: what the
-- gateway is left with.
use shepard.Base.{ℕ, ◌+◌, ◌≡◌, String, Option, some, arith}
use shepard.Config.Types.{Config}
use shepard.Limiter.{in_use}
use shepard.Limiter.Holds.{in_use-concurrent}
use shepard.Acl.{Net}
use shepard.Identity.{Request, client_identity}
use shepard.Proxy.State.{Codec, Finished, refused, relayed, waiting_for, returned}
use shepard.Proxy.Flow.{FinishedSat}
use shepard.Proxy.Accounting.{IsPending, IsCounted, proxy-IsCounted}
use shepard.Proxy.Slots.{IsCalm, proxy-in_use}
use shepard.Gateway.{
  Gateway, GatewayError, Handler, forbidden, health, ready, unauthorized, not_found,
  opencode_config, models, usage_report, metrics, proxy, serve_http, reload,
}
use shepard.Gateway.Reloading.{Reloaded, other_db, refused, done, reload-Reloaded}
use shepard.Gateway.Responses.{Written, Formats}
use shepard.Gateway.Serving.{Visit, World, seen_by_proxy, proxied, serve_handler, serve}

module _ (net : Net) where
  -- No slot of any key is in use, and every request was counted once as completed or failed.
  pub record IsIdle (w : World net) : Type 0 where
    pub free : (key : String) → in_use key w.gateway.limits ≡ 0
    pub active : w.metrics.active ≡ 0
    pub counted : w.metrics.requests ≡ w.metrics.completed + w.metrics.failed

  proxied-IsIdle :
      (w : World net) (elapsed : ℕ) (x : Finished) (reply : Written)
      → IsIdle w
      → FinishedSat (IsPending w.metrics) (IsCounted w.metrics elapsed) x
      → ((key : String)
          → FinishedSat
              (λ u. Unit {0})
              (λ r b u. in_use key u.shared.1.1 ≡ in_use key w.gateway.limits)
              x)
      → (proxied net w x).0 ≡ some reply
      → IsIdle (proxied net w x).1
  proxied-IsIdle w elapsed (waiting_for st) reply i c s e = absurd (ground (arith, e))
  proxied-IsIdle w elapsed (returned (refused status message retry) b st) reply i c s e = record {
    free = λ key. omega (arith, s key, i.free key);
    active = omega (arith, c.active, i.active);
    counted = omega (arith, c.requests, c.completed, c.failed, i.counted);
  }
  proxied-IsIdle w elapsed (returned (relayed status header chunks) b st) reply i c s e = record {
    free = λ key. omega (arith, s key, i.free key);
    active = omega (arith, c.active, i.active);
    counted = omega (arith, c.requests, c.completed, c.failed, i.counted);
  }

  reload-IsIdle :
      (c : Config) (w : World net)
      → IsIdle w
      → IsIdle (record w { gateway = (reload net c w.gateway).1 })
  reload-IsIdle c w i = reloaded (reload-Reloaded net c w.gateway)
    where
      reloaded :
          {x : Option GatewayError × Gateway net}
          → Reloaded net c w.gateway x
          → IsIdle (record w { gateway = x.1 })
      reloaded (other_db n) = i
      reloaded (refused value e) = i
      reloaded (done g is) = record {
        free = λ key.
            omega
              (arith, in_use-concurrent key w.gateway.limits g.limits is.concurrent, i.free key);
        active = i.active;
        counted = i.counted;
      }

  module _ (digest : String → String) (codec : Codec) (f : Formats) where
    serve_handler-IsIdle :
        (v : Visit) (r : Request) (w : World net) (h : Handler) (reply : Written)
        → IsIdle w
        → ((key : String) → IsCalm key v.proxying)
        → (serve_handler net digest codec f v r w h).0 ≡ some reply
        → IsIdle (serve_handler net digest codec f v r w h).1
    unfolding serve_handler
    serve_handler-IsIdle v r w forbidden reply i calm e = i
    serve_handler-IsIdle v r w health reply i calm e = i
    serve_handler-IsIdle v r w ready reply i calm e = record {
      free = i.free;
      active = i.active;
      counted = i.counted;
    }
    serve_handler-IsIdle v r w unauthorized reply i calm e = i
    serve_handler-IsIdle v r w not_found reply i calm e = i
    serve_handler-IsIdle v r w opencode_config reply i calm e = record {
      free = i.free;
      active = i.active;
      counted = i.counted;
    }
    serve_handler-IsIdle v r w models reply i calm e = record {
      free = i.free;
      active = i.active;
      counted = i.counted;
    }
    serve_handler-IsIdle v r w usage_report reply i calm e = i
    serve_handler-IsIdle v r w metrics reply i calm e = i
    serve_handler-IsIdle v r w proxy reply i calm e =
        let client : String = client_identity net digest r w.gateway.trusted in
        proxied-IsIdle w v.proxying.elapsed _ reply i
          (proxy-IsCounted codec w.gateway.config v.proxying client r v.body (seen_by_proxy net w))
          (λ key.
            proxy-in_use key codec w.gateway.config v.proxying client r v.body (seen_by_proxy net w)
              (calm key))
          e

    -- Requests that were answered, while the others left the slots of every key as they found them,
    -- and reloads.
    pub data Reach (w : World net) : World net → Type 0 where
      here : Reach w w
      after_request :
          {u : World net} (v : Visit) (r : Request) (reply : Written)
          → Reach w u
          → ((key : String) → IsCalm key v.proxying)
          → (serve net digest codec f v r u).0 ≡ some reply
          → Reach w (serve net digest codec f v r u).1
      after_reload :
          {u : World net} (c : Config)
          → Reach w u
          → Reach w (record u { gateway = (reload net c u.gateway).1 })

    -- From a gateway where no slot of any key is in use, none of the requests is active and each
    -- was counted as completed or failed, any sequence of requests that are answered, while the
    -- others leave the slots as they found them, and of reloads, leads to such a gateway again:
    -- nothing leaks, whatever routes, errors and providers the requests meet.
    pub Reach-IsIdle : {w u : World net} → IsIdle w → Reach w u → IsIdle u
    unfolding serve
    Reach-IsIdle i here = i
    Reach-IsIdle i (after_request {u} v r reply h calm e) =
        serve_handler-IsIdle v r u (serve_http net u.gateway r) reply (Reach-IsIdle i h) calm e
    Reach-IsIdle i (after_reload {u} c h) = reload-IsIdle c u (Reach-IsIdle i h)
