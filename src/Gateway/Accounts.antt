-- ===== src/Gateway/Accounts.antt =====
-- The usage tables over any sequence of requests and reloads.
use mathlib.Core.Option
use shepard.Base.{ℕ, Option, none, some, ◌≡◌, refl, String, [], ◌∷◌, lookup, ap, ◌∙◌}
use shepard.Config.Types.{Config}
use shepard.Usage.{UsageDb, record_entry, empty_db}
use shepard.Usage.Sums.{Keys, sum_rows, sum_entries}
use shepard.Usage.Ledger.{Calls, record_all, committed, summary, record_all-committed}
use shepard.Usage.Answers.{UsageAnswer, by_model, by_period, bad_period, unreadable}
use shepard.Json.{Json}
use shepard.Readiness.Handling.{Health, check_cancelled, health}
use shepard.Acl.{Net}
use shepard.Identity.{Request, client_identity}
use shepard.Buffers.Tail
use shepard.Buffers.Tail.{last}
use shepard.Proxy.State.{
  Codec, usage_capture_limit, ProxyState, Finished, ClientReply, waiting_for, returned, refused,
}
use shepard.Proxy.Flow.{FinishedSat}
use shepard.Proxy.Recording.{IsRecorded, entry_of, unrecorded, refusal, response, proxy-IsRecorded}
use shepard.Gateway.{
  Handler, forbidden, ready, unauthorized, not_found, opencode_config, models, usage_report,
  metrics, proxy, serve_http, reload,
}
use shepard.Headers.{Header}
use shepard.Gateway.Responses.{
  json, text, stream, Written, Formats, write_reply, write_api_error, write_json_status, write_json,
  write_health, write_usage, write_opencode,
}
use shepard.Gateway.Serving.{
  Visit, World, seen_by_proxy, after_proxy, proxied, serve_handler, serve,
}

-- A response of the gateway's own.
abbrev pub IsOwn : Option Written → Type 0
IsOwn none = Unit {0}
IsOwn (some w) = elim w.content [ json body ↦ Unit {0} | text body ↦ Unit {0} | stream body ↦ ⊥ ]

module _ (codec : Codec) (v : Visit) (client : String) where
  -- What a request with the response adds to the log: a relayed response one call of `recordAt`, with
  -- its status, the tokens of the last 2 MiB of its body, and the faults that the call meets; a
  -- response of the gateway's own, or a wait, none or one with that status and no body.
  pub data Charged (log : Calls) : Option Written → Calls → Type 0 where
    free : {o : Option Written} → IsOwn o → Charged log o log
    refusal_charged :
        (alias : String) (w : Written)
        → IsOwn (some w)
        → Charged log
            (some w)
            ((v.proxying.faults, entry_of codec v.proxying client alias w.status []) ∷ log)
    response_charged :
        (alias : String) (status : ℕ) (header : Header)
        → Charged log
            (some (record { status = status; header = header; content = stream v.proxying.chunks }))
            ((
              v.proxying.faults,
              entry_of codec v.proxying client alias status
                  (last usage_capture_limit (Tail.stream v.proxying.chunks)),
            )
              ∷ log)

module _ (net : Net) where
  -- The log after a request that is answered with the first part and leaves the second.
  pub record Extends (codec : Codec) (v : Visit) (client : String) (log : Calls)
      (x : Option Written × World net) : Type 0 where
    pub calls : Calls
    pub charged : Charged codec v client log x.0 calls
    pub tables : x.1.usage ≡ record_all calls

  recorded-Extends :
      (codec : Codec) (v : Visit) (client : String) (w : World net) (log : Calls)
      (reply : ClientReply) (st : ProxyState)
      → w.usage ≡ record_all log
      → (db : UsageDb) → st.usage ≡ db
      → IsRecorded codec v.proxying client w.usage reply db
      → Extends codec v client log (some (write_reply reply), after_proxy net w st)
  unfolding record_all write_reply write_api_error write_json_status
  recorded-Extends codec v client w log _ st l _ e (unrecorded status message retry) = record {
    calls = log;
    charged = free tt;
    tables = e ∙ l;
  }
  recorded-Extends codec v client w log _ st l _ e (refusal alias status message retry) = record {
    calls = (v.proxying.faults, entry_of codec v.proxying client alias status []) ∷ log;
    charged = refusal_charged alias (write_reply (refused status message retry)) tt;
    tables = e ∙ ap (record_entry v.proxying.faults _) l;
  }
  recorded-Extends codec v client w log _ st l _ e (response alias status header) = record {
    calls =
        (
          v.proxying.faults,
          entry_of codec v.proxying client alias status
              (last usage_capture_limit (Tail.stream v.proxying.chunks)),
        )
        ∷ log;
    charged = response_charged alias status header;
    tables = e ∙ ap (record_entry v.proxying.faults _) l;
  }

  proxied-Extends :
      (codec : Codec) (v : Visit) (client : String) (w : World net) (log : Calls) (x : Finished)
      → w.usage ≡ record_all log
      → FinishedSat
          (λ u. u.usage ≡ w.usage)
          (λ reply b u. IsRecorded codec v.proxying client w.usage reply u.usage)
          x
      → Extends codec v client log (proxied net w x)
  proxied-Extends codec v client w log (waiting_for st) l e = record {
    calls = log;
    charged = free tt;
    tables = e ∙ l;
  }
  proxied-Extends codec v client w log (returned reply b st) l e =
      recorded-Extends codec v client w log reply st l st.usage refl e

  module _ (digest : String → String) (codec : Codec) (f : Formats) where
    abbrev pub client_of : World net → Request → String
    client_of w r = client_identity net digest r w.gateway.trusted

    health-IsOwn : (o : Option Health) → IsOwn (Option.map write_health o)
    unfolding write_health write_json write_api_error write_json_status
    health-IsOwn none = tt
    health-IsOwn (some check_cancelled) = tt
    health-IsOwn (some (health code state providers)) = tt

    usage-IsOwn : (a : UsageAnswer) → IsOwn (some (write_usage f a))
    unfolding write_usage write_json write_api_error write_json_status
    usage-IsOwn (by_model usages) = tt
    usage-IsOwn (by_period period items) = tt
    usage-IsOwn bad_period = tt
    usage-IsOwn unreadable = tt

    opencode-IsOwn : (o : Option Json) → IsOwn (some (write_opencode o))
    unfolding write_opencode write_json write_json_status
    opencode-IsOwn none = tt
    opencode-IsOwn (some body) = tt

    serve_handler-Extends :
        (v : Visit) (r : Request) (w : World net) (log : Calls) (h : Handler)
        → w.usage ≡ record_all log
        → Extends codec v (client_of w r) log (serve_handler net digest codec f v r w h)
    unfolding serve_handler write_json write_api_error write_json_status
    serve_handler-Extends v r w log forbidden l = record {
      calls = log;
      charged = free tt;
      tables = l;
    }
    serve_handler-Extends v r w log Handler.health l = record {
      calls = log;
      charged = free tt;
      tables = l;
    }
    serve_handler-Extends v r w log ready l = record {
      calls = log;
      charged = free (health-IsOwn _);
      tables = l;
    }
    serve_handler-Extends v r w log unauthorized l = record {
      calls = log;
      charged = free tt;
      tables = l;
    }
    serve_handler-Extends v r w log not_found l = record {
      calls = log;
      charged = free tt;
      tables = l;
    }
    serve_handler-Extends v r w log opencode_config l = record {
      calls = log;
      charged = free (opencode-IsOwn _);
      tables = l;
    }
    serve_handler-Extends v r w log models l = record { calls = log; charged = free tt; tables = l }
    serve_handler-Extends v r w log usage_report l = record {
      calls = log;
      charged = free (usage-IsOwn _);
      tables = l;
    }
    serve_handler-Extends v r w log metrics l = record {
      calls = log;
      charged = free tt;
      tables = l;
    }
    serve_handler-Extends v r w log proxy l = proxied-Extends codec v (client_of w r) w log _ l (
        proxy-IsRecorded codec w.gateway.config v.proxying (client_of w r) r v.body
          (seen_by_proxy net w))

    -- Requests, whatever each of them meets, and reloads.
    pub data Run (w : World net) : World net → Type 0 where
      begins : Run w w
      visited :
          {u : World net} (v : Visit) (r : Request)
          → Run w u
          → Run w (serve net digest codec f v r u).1
      reconfigured :
          {u : World net} (c : Config)
          → Run w u
          → Run w (record u { gateway = (reload net c u.gateway).1 })

    -- The log of a run: what each of its requests is charged, by the response that it got.
    pub data Logs {w : World net} : (u : World net) → Run w u → Calls → Type 0 where
      nothing : Logs w begins []
      after_visit :
          {u : World net} {log log' : Calls} (v : Visit) (r : Request) {run : Run w u}
          → Logs u run log
          → Charged codec v (client_of u r) log (serve net digest codec f v r u).0 log'
          → Logs (serve net digest codec f v r u).1 (visited v r run) log'
      after_reload :
          {u : World net} {log : Calls} (c : Config) {run : Run w u}
          → Logs u run log
          → Logs (record u { gateway = (reload net c u.gateway).1 }) (reconfigured c run) log

    -- The tables against the log of the run.
    pub record AddsUp {w u : World net} (run : Run w u) : Type 0 where
      pub calls : Calls
      pub logs : Logs u run calls
      pub tables : u.usage ≡ record_all calls
      pub by_model :
          (model : String) → lookup model u.usage.model_usage ≡ summary model (committed calls)
      pub by_day : (q : Keys) → sum_rows q u.usage.daily_usage ≡ sum_entries q (committed calls)

    Run-Logs :
        {w u : World net} (run : Run w u)
        → w.usage ≡ empty_db
        → (calls : Calls) × Logs u run calls × (u.usage ≡ record_all calls)
    unfolding serve record_all
    Run-Logs begins e = ([], nothing, e)
    Run-Logs (visited {u} v r run) e =
        let (log, logs, tables) = Run-Logs run e in
        let x = serve_handler-Extends v r u log (serve_http net u.gateway r) tables in
        (x.calls, after_visit v r logs x.charged, x.tables)
    Run-Logs (reconfigured c run) e =
        let (log, logs, tables) = Run-Logs run e in (log, after_reload c logs, tables)

    -- From a gateway with empty usage tables, after any sequence of requests, whatever each of them
    -- asks for and meets, and of reloads, the usage tables are those of a log in which each request
    -- has what its response calls for. A relayed response has exactly one call of `recordAt`, with
    -- its client and status, the tokens of the last 2 MiB of its body, and the statements that fail
    -- then. A response of the gateway's own, or none yet, has no call, or one with its status and
    -- no body. The row of a model shows the sums over the committed entries of the model, with the
    -- time and the status of the newest, and over any choice of days, clients and models the daily
    -- rows sum to the committed entries.
    pub Run-AddsUp : {w u : World net} (run : Run w u) → w.usage ≡ empty_db → AddsUp run
    Run-AddsUp run e =
        let (log, logs, tables) = Run-Logs run e in
        let sums = record_all-committed log in
        record {
          calls = log;
          logs = logs;
          tables = tables;
          by_model =
              λ model. ap (λ (db : UsageDb). lookup model db.model_usage) tables ∙ sums.0 model;
          by_day = λ q. ap (λ (db : UsageDb). sum_rows q db.daily_usage) tables ∙ sums.1 q;
        }
