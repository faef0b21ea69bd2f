-- ===== src/Gateway/Tests.antt =====
-- Routes, and a reload between two configurations.
use shepard.Base.{lookup, insert, false, ◌≡◌, refl, true, none, some, [], ◌∷◌, string_eq, pos}
use shepard.Base.Text.{trim}
use shepard.Config.Samples.{config_with, lenient, two_providers_pass}
use shepard.Acl.{acl_contains, forwarded_client_ip}
use shepard.Acl.Samples.{texts, texts-AreSame}
use shepard.Identity.{Request, authorized, client_identity}
use shepard.Gateway.{Gateway, forbidden, proxy, serve_http, reload}
use shepard.Gateway.Reloading.{IsReloaded, Reloaded, reload-Reloaded, reload_validated}
use shepard.Config.Types.{resolved_targets}
use shepard.Queue.{wait}
use shepard.Limiter.{admit, in_use}
use shepard.Admission.{admit_with_queue}
use shepard.Headers.{copy_response_headers}
use shepard.Buffers.{write_tail}
use shepard.Payload.{apply_system_prompt}
use shepard.Usage.{record_entry, empty_db}
use shepard.Failover.Targets.{run_targets}
use shepard.Proxy
use shepard.Proxy.Samples.{env, codec, no_metrics, env-IsCalm, env-IsBounded}
use shepard.Gateway.Responses.{Formats, Written, stream, write_reply}
use shepard.Gateway.Serving.{Visit, World, serve}
use shepard.Gateway.Frame.{Guarded, serve-Guarded}
use shepard.Readiness.Handling.{context_done}
use shepard.Gateway.Answers.{serve-answers}
use shepard.Gateway.Accounts.{AddsUp, Run, Run-AddsUp, begins, visited, reconfigured}
use shepard.Gateway.History.{IsIdle, Reach-IsIdle, here, after_request, after_reload}
use shepard.Gateway.Routing.{Served, serve_http-Served}

-- A gateway with a cached readiness, a request in flight and one in the queue.
abbrev running : Gateway texts
running = record {
  config = config_with "far/" [];
  acl = record { networks = "10.0.0.1" ∷ [] };
  trusted = none;
  discovery = [];
  readiness = record {
    result = record { status = ("near", "ready") ∷ []; ready = true };
    expires = some 7;
    inflight = true;
    generation = 3;
  };
  limits = record { buckets = []; concurrent = ("client:a", 1) ∷ [] };
  queue = record { waiting = 1; max = pos 4 };
  usage_db_path = "usage.db";
}

abbrev chat_request : Request
chat_request = record {
  method = "POST";
  path = "/v1/chat/completions";
  remote_addr = "10.0.0.1";
  host = "gateway";
  tls = true;
  header = [];
}

chat_served : serve_http texts running chat_request ≡ proxy
unfolding serve_http acl_contains forwarded_client_ip trim authorized
chat_served = refl

stranger_refused :
    serve_http texts running (record chat_request { remote_addr = "10.0.0.2" }) ≡ forbidden
unfolding serve_http acl_contains forwarded_client_ip trim
stranger_refused = refl

serve_http-Served_example :
    Served texts running chat_request (serve_http texts running chat_request)
serve_http-Served_example = serve_http-Served texts running chat_request

reload-Reloaded_example :
    Reloaded texts (config_with "near/" []) running (reload texts (config_with "near/" []) running)
reload-Reloaded_example = reload-Reloaded texts (config_with "near/" []) running

reload_validated_example :
    (g : Gateway texts) × (reload texts (config_with "far/" []) running ≡ (none, g))
    × IsReloaded texts (config_with "far/" []) running g
reload_validated_example =
    reload_validated texts lenient (config_with "far/" []) running texts-AreSame two_providers_pass
      refl

abbrev formats : Formats
formats = record { show_count = λ n. "n"; show_seconds = λ n. "s"; show_time = λ n. "t" }

abbrev visit : Visit
visit = record {
  body = 1 ∷ [];
  period = "";
  client = "";
  query_fails = false;
  now = 5;
  probing = record { items = []; during = λ c. c; ended = 6; ttl = 1 };
  wakeups = [];
  answers = env.answers;
  proxying = env;
}

abbrev idle_world : World texts
idle_world = record {
  gateway = record running { limits = record { buckets = []; concurrent = [] } };
  clock = 0;
  metrics = no_metrics;
  usage = empty_db;
}

serve-Guarded_example :
    Guarded texts idle_world chat_request
      (serve texts (λ s. s) codec formats visit chat_request idle_world)
serve-Guarded_example = serve-Guarded texts (λ s. s) codec formats visit chat_request idle_world

idle_world-IsIdle : IsIdle texts idle_world
unfolding in_use lookup
idle_world-IsIdle = record { free = λ key. refl; active = refl; counted = refl }

-- A request that a provider answers.
abbrev answer : Written
answer = record { status = 200; header = []; content = stream ((104 ∷ []) ∷ (105 ∷ []) ∷ []) }

chat_answered : (serve texts (λ s. s) codec formats visit chat_request idle_world).0 ≡ some answer
unfolding serve acl_contains forwarded_client_ip trim authorized Proxy.proxy admit_with_queue wait
    admit lookup insert apply_system_prompt run_targets resolved_targets copy_response_headers
    record_entry write_tail client_identity write_reply
chat_answered = refl

abbrev after_chat : World texts
after_chat = (serve texts (λ s. s) codec formats visit chat_request idle_world).1

Reach-IsIdle_example :
    IsIdle texts
      (record after_chat { gateway = (reload texts (config_with "near/" []) after_chat.gateway).1 })
Reach-IsIdle_example =
    Reach-IsIdle texts (λ s. s) codec formats idle_world-IsIdle
      (after_reload (config_with "near/" [])
        (after_request visit chat_request answer here env-IsCalm chat_answered))

-- The request, and a reload after it.
abbrev chat_then_reload :
    Run texts
      (λ s. s)
      codec
      formats
      idle_world
      (record after_chat { gateway = (reload texts (config_with "near/" []) after_chat.gateway).1 })
chat_then_reload = reconfigured (config_with "near/" []) (visited visit chat_request begins)

Run-AddsUp_example : AddsUp texts (λ s. s) codec formats chat_then_reload
Run-AddsUp_example = Run-AddsUp texts (λ s. s) codec formats chat_then_reload refl

-- A health check that waits for another request's probe until its context ends.
abbrev check : Request
check = record chat_request { method = "GET"; path = "/readyz" }

abbrev patient : Visit
patient = record visit { now = 9; wakeups = context_done ∷ [] }

serve-answers_example :
    (reply : Written) × ((serve texts (λ s. s) codec formats patient check idle_world).0
      ≡ some reply)
serve-answers_example =
    serve-answers texts (λ s. s) codec formats patient check idle_world env-IsBounded tt
