-- ===== src/Gateway/Answers.antt =====
-- Every request is answered, if the waits that it may come to have an end.
use mathlib.Core.Option
use shepard.Base.{ℕ, ◌≡◌, refl, String, Bool, Option, none, some, List, [], ◌∷◌, nat_eq}
use shepard.Readiness.{ReadinessCache, Turn, cached, waits, probes, take_turn}
use shepard.Readiness.Handling.{
  Probing, Wakeup, context_done, probe_done, Readied, cancelled, Health, after_turn,
  cached_readiness, answer_of,
}
use shepard.Acl.{Net}
use shepard.Identity.{Request, client_identity}
use shepard.Proxy
use shepard.Proxy.State.{Codec, Finished, ClientReply, returned}
use shepard.Proxy.Ending.{IsBounded, proxy-returns}
use shepard.Gateway.{
  Handler, forbidden, health, ready, unauthorized, not_found, opencode_config, models, usage_report,
  metrics, proxy, serve_http,
}
use shepard.Gateway.Responses.{Written, Formats, write_health}
use shepard.Gateway.Serving.{Visit, World, seen_by_proxy, proxied, serve_handler, serve}

-- The wait for another request's probe ends with the context at the latest.
abbrev pub HasEnd : List Wakeup → Type 0
HasEnd [] = ⊥
HasEnd (context_done ∷ wakeups) = Unit {0}
HasEnd (probe_done later others ∷ wakeups) = HasEnd wakeups

abbrev IsSome {ℓ} : {A : Type ℓ} → Option A → Type 0
IsSome none = ⊥
IsSome (some a) = Unit {0}

after_turn-answers :
    (p : Probing) (t : Turn × ReadinessCache) (waited : Readied × ReadinessCache)
    → IsSome (answer_of waited.0)
    → IsSome (answer_of (after_turn p t waited).0)
unfolding after_turn
after_turn-answers p (cached r, c) waited h = tt
after_turn-answers p (waits, c) waited h = h
after_turn-answers p (probes generation, c) waited h = tt

cached_readiness-answers :
    (p : Probing) (now : ℕ) (wakeups : List Wakeup) (c : ReadinessCache)
    → HasEnd wakeups
    → IsSome (answer_of (cached_readiness p now wakeups c).0)
unfolding cached_readiness
cached_readiness-answers p now [] c h = absurd h
cached_readiness-answers p now (context_done ∷ wakeups) c h =
    after_turn-answers p (take_turn now c) (cancelled, c) tt
cached_readiness-answers p now (probe_done later others ∷ wakeups) c h =
    after_turn-answers p (take_turn now c) _ (cached_readiness-answers p later wakeups (others c) h)

written : (o : Option Health) → IsSome o → IsSome (Option.map write_health o)
written none h = absurd h
written (some a) h = tt

reply_of_some : (o : Option Written) → IsSome o → (reply : Written) × (o ≡ some reply)
reply_of_some none h = absurd h
reply_of_some (some reply) h = (reply, refl)

module _ (net : Net) where
  proxied-answers :
      (w : World net) (x : Finished)
      → (reply : ClientReply) × (completed : Bool) × (st : Proxy.State.ProxyState) × (x
          ≡ returned reply completed st)
      → IsSome (proxied net w x).0
  proxied-answers w x (reply, completed, st, e) = rw e tt

  module _ (digest : String → String) (codec : Codec) (f : Formats) where
    serve_handler-answers :
        (v : Visit) (r : Request) (w : World net) (h : Handler)
        → IsBounded v.proxying
        → HasEnd v.wakeups
        → IsSome (serve_handler net digest codec f v r w h).0
    unfolding serve_handler
    serve_handler-answers v r w forbidden b e = tt
    serve_handler-answers v r w health b e = tt
    serve_handler-answers v r w ready b e =
        written _ (cached_readiness-answers v.probing v.now v.wakeups w.gateway.readiness e)
    serve_handler-answers v r w unauthorized b e = tt
    serve_handler-answers v r w not_found b e = tt
    serve_handler-answers v r w opencode_config b e = tt
    serve_handler-answers v r w models b e = tt
    serve_handler-answers v r w usage_report b e = tt
    serve_handler-answers v r w metrics b e = tt
    serve_handler-answers v r w proxy b e = proxied-answers w _ (
        proxy-returns codec w.gateway.config v.proxying
          (client_identity net digest r w.gateway.trusted) r v.body (seen_by_proxy net w) b)

    -- Take a request whose body read, discovery, calls and probes of providers, backoffs and relay
    -- each come to an end, as its environment says how: that they do is taken for granted. If in
    -- each of its waits for admission the context ends in some round, and its wait for another
    -- request's probe ends with the context at the latest, then `serve` returns a response, on
    -- every route, after every error and over any number of targets and retries.
    pub serve-answers :
        (v : Visit) (r : Request) (w : World net)
        → IsBounded v.proxying
        → HasEnd v.wakeups
        → (reply : Written) × ((serve net digest codec f v r w).0 ≡ some reply)
    unfolding serve
    serve-answers v r w b e =
        reply_of_some (serve net digest codec f v r w).0
          (serve_handler-answers v r w (serve_http net w.gateway r) b e)
