-- ===== src/Proxy/Samples.antt =====
-- A small request and what it meets, for the tests.
use shepard.Base.{inl, ℕ, String, refl, zero, suc, true, false, some, [], ◌∷◌, pos, length}
use shepard.Json.{str}
use shepard.Config.Types.{Config, Limits, ProviderConfig, ModelConfig}
use shepard.Config.Samples.{config_with, provider_at, model_with, server}
use shepard.Queue.{Round, done}
use shepard.Limiter.{LimitStore}
use shepard.Usage.{empty_db}
use shepard.Discovery.{unanswered}
use shepard.Identity.{Request}
use shepard.Failover.Retry.{Reply, failed, responded, Attempt}
use shepard.Failover.Slots.{IsQuiet}
use shepard.Proxy.Slots.{IsCalm}
use shepard.Proxy.Ending.{IsBounded}
use shepard.Proxy.State.{Metrics, ProxyState, ProxyEnv, Codec}

abbrev pub config : Config
config = config_with "far/" []

-- A context that has ended, with nothing done by others.
abbrev pub ended_round : Round (ℕ × LimitStore)
ended_round = record { others = λ w. w; wake = done }

abbrev pub attempt : Attempt
attempt = record {
  rounds = ended_round ∷ [];
  during_request = λ w. w;
  reply = responded (record { status = 200; header = []; body = "" });
  ctx_ended = false;
  timed_out = false;
  during_backoff = λ w. w;
  backoff_ended = true;
}

abbrev pub env : ProxyEnv
env = record {
  ingress_rounds = ended_round ∷ [];
  during_read = λ w. w;
  read_fails = false;
  answers = λ name. record { asked = 0; stored = 0; listing = unanswered "refused" };
  during_discovery = λ w. w;
  model_rounds = ended_round ∷ [];
  attempts = λ i j. attempt;
  deadline_exceeded = false;
  during_relay = λ w. w;
  chunks = (104 ∷ []) ∷ (105 ∷ []) ∷ [];
  recorded_at = record { unix_nano = 5; date = "2026-01-02" };
  faults = record {
    begin_fails = false;
    model_fails = false;
    daily_fails = false;
    commit_fails = false;
  };
  elapsed = 7;
}

-- Every body asks for the model `chat`.
abbrev pub codec : Codec
codec = record {
  unmarshal = λ body. some (("model", str "chat") ∷ []);
  marshal = λ payload. some "{}";
  extract = λ body. (length body, 0, length body);
}

abbrev pub request : Request
request = record {
  method = "POST";
  path = "/v1/responses";
  remote_addr = "10.0.0.1:80";
  host = "gateway";
  tls = false;
  header = [];
}

abbrev pub no_metrics : Metrics
no_metrics = record {
  requests = 0;
  completed = 0;
  failed = 0;
  active = 0;
  upstream_requests = 0;
  upstream_errors = 0;
  queue_waits = 0;
  queue_rejected = 0;
  duration_nanos = 0;
}

abbrev pub idle : ProxyState
idle = record {
  shared = (record { waiting = 0; max = pos 0 }, (0, record { buckets = []; concurrent = [] }));
  metrics = no_metrics;
  discovery = [];
  usage = empty_db;
}

-- Two providers for one model, with limits on concurrency alone. The first always fails; the second
-- answers at its second attempt.
abbrev roomy : Limits
roomy = record { requests_per_minute = pos 0; burst = pos 0; max_concurrent = pos 4 }

abbrev pub roomy_provider : ProviderConfig
roomy_provider = record (provider_at "") { limits = roomy }

abbrev pub redundant_model : ModelConfig
redundant_model = record (model_with []) {
  targets =
      record { provider = "near"; model = "base" }
      ∷ record { provider = "far"; model = "other" }
      ∷ [];
  limits = roomy;
}

abbrev pub redundant_config : Config
redundant_config = record {
  server = record server { client_limits = roomy };
  providers = ("near", roomy_provider) ∷ ("far", roomy_provider) ∷ [];
  models = ("chat", redundant_model) ∷ [];
}

abbrev reply_at : ℕ → ℕ → Reply
reply_at zero j = failed "connection refused"
reply_at (suc i) zero = responded (record { status = 503; header = []; body = "" })
reply_at (suc i) (suc j) = responded (record { status = 200; header = []; body = "" })

abbrev pub bumpy_env : ProxyEnv
bumpy_env = record env { attempts = λ i j. record attempt { reply = reply_at i j } }

-- The other goroutines do nothing.
attempt-IsQuiet : (key : String) (i j : ℕ) → IsQuiet key (env.attempts i j)
attempt-IsQuiet key i j = record {
  waits = ((λ w. refl), tt);
  requests = λ w. refl;
  backs_off = λ w. refl;
}

pub env-IsCalm : (key : String) → IsCalm key env
env-IsCalm key = record {
  ingress = ((λ w. refl), tt);
  reading = λ w. refl;
  discovery = λ w. refl;
  model = ((λ w. refl), tt);
  attempts = attempt-IsQuiet key;
  relaying = λ w. refl;
}

pub env-IsBounded : IsBounded env
env-IsBounded = record { ingress = inl refl; model = inl refl; attempts = λ i j. inl refl }
