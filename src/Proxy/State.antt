-- ===== src/Proxy/State.antt =====
-- What `proxy` reads and changes, what it answers, and the frame of an admission: its wait, the rest
-- of the handler, and the release when the handler returns.
use shepard.Base.{
  ℕ, ◌+◌, string_eq, if◌then◌else◌, String, Bool, true, false, Option, none, some, List, [], ◌∷◌,
}
use shepard.Json.{Json, str}
use shepard.Queue.{Round, Admission}
use shepard.Limiter.{AdmissionScope, LimitStore, release}
use shepard.Admission.{Shared, admit_with_queue}
use shepard.Payload.{Payload}
use shepard.Headers.{Header}
use shepard.Buffers.{TailBuffer, write_tail}
use shepard.Usage.{UsageDb, Instant, Faults}
use shepard.Discovery.{DiscoveryStore, Answer}
use shepard.Failover.Retry.{Attempt, Progress}
use shepard.Failover.Targets.{Failure}

-- Sums of atomics: what this request adds. `active` is signed, and goes down only after it went up.
pub record Metrics : Type 0 where
  pub requests : ℕ
  pub completed : ℕ
  pub failed : ℕ
  pub active : ℕ
  pub upstream_requests : ℕ
  pub upstream_errors : ℕ
  pub queue_waits : ℕ
  pub queue_rejected : ℕ
  pub duration_nanos : ℕ

pub record ProxyState : Type 0 where
  pub shared : Shared
  pub metrics : Metrics
  pub discovery : DiscoveryStore
  pub usage : UsageDb

-- What one request meets: the wake-ups of its two waits, the providers' answers to discovery and to
-- its attempts, what others do meanwhile, the chunks in which the relayed body arrives, and when
-- and how its usage is recorded.
pub record ProxyEnv : Type 0 where
  pub ingress_rounds : List (Round (ℕ × LimitStore))
  pub during_read : Shared → Shared
  pub read_fails : Bool
  pub answers : String → Answer
  pub during_discovery : Shared → Shared
  pub model_rounds : List (Round (ℕ × LimitStore))
  pub attempts : ℕ → ℕ → Attempt
  pub deadline_exceeded : Bool
  pub during_relay : Shared → Shared
  pub chunks : List (List ℕ)
  pub recorded_at : Instant
  pub faults : Faults
  pub elapsed : ℕ

-- An error with its status and message, and whether the client is told to retry; or a response.
pub data ClientReply : Type 0 where
  refused : ℕ → String → Bool → ClientReply
  relayed : ℕ → Header → List (List ℕ) → ClientReply

-- How the handler stands at the end of its environment: still in a wait for admission, or returned,
-- with `completed` as its deferred function finds it.
pub data Finished : Type 0 where
  waiting_for : ProxyState → Finished
  returned : ClientReply → Bool → ProxyState → Finished

abbrev pub set_shared : Shared → ProxyState → ProxyState
set_shared w st = record st { shared = w }

-- A deferred release runs when the handler returns.
unfoldable pub give_back : List AdmissionScope → ProxyState → ProxyState
give_back held st = set_shared (st.shared.0, (st.shared.1.0, release held st.shared.1.1)) st

abbrev pub finally : (ProxyState → ProxyState) → Finished → Finished
finally f (waiting_for st) = waiting_for st
finally f (returned reply completed st) = returned reply completed (f st)

abbrev pub count_wait : Bool → Metrics → Metrics
count_wait queued m = if queued then record m { queue_waits = m.queue_waits + 1 } else m

abbrev pub count_rejection : Metrics → Metrics
count_rejection m = record m { queue_rejected = m.queue_rejected + 1 }

abbrev pub admitted_or :
    (ProxyState → Finished)
    → (ProxyState → Finished)
    → ProxyState
    → Option (List AdmissionScope)
    → Finished
admitted_or rejected body st none = rejected (record st { metrics = count_rejection st.metrics })
admitted_or rejected body st (some held) = finally (give_back held) (body st)

unfoldable pub after_wait :
    (ProxyState → Finished)
    → (ProxyState → Finished)
    → ProxyState
    → Option (Admission (List AdmissionScope)) × Shared
    → Finished
unfolding give_back
after_wait rejected body st (none, w) = waiting_for (set_shared w st)
after_wait rejected body st (some a, w) =
    admitted_or rejected body
      (record (set_shared w st) { metrics = count_wait a.queued st.metrics }) a.release

-- Admission, the rest of the handler while the scopes are held, and their release.
unfoldable pub with_admission :
    List AdmissionScope
    → List (Round (ℕ × LimitStore))
    → (ProxyState → Finished)
    → (ProxyState → Finished)
    → ProxyState
    → Finished
unfolding after_wait
with_admission scopes rounds rejected body st =
    after_wait rejected body st (admit_with_queue scopes rounds st.shared)

abbrev pub usage_capture_limit : ℕ
usage_capture_limit = 2_097_152

unfoldable pub capture : List (List ℕ) → TailBuffer → TailBuffer
capture [] b = b
capture (chunk ∷ chunks) b = capture chunks (write_tail b chunk)

abbrev pub rate_limited : ClientReply
rate_limited = refused 429 "rate or concurrency limit exceeded" true

-- What the handler calls and does not contain: the decoding and encoding of JSON, and the token
-- counts of a response body.
pub record Codec : Type 0 where
  pub unmarshal : List ℕ → Option Payload
  pub marshal : Payload → Option String
  pub extract : List ℕ → ℕ × ℕ × ℕ

-- What the target loop did, on the handler's state.
abbrev pub absorb : Progress → ProxyState → ProxyState
absorb p st = record st {
  shared = p.shared;
  metrics = record st.metrics {
    queue_waits = st.metrics.queue_waits + p.queue_waits;
    upstream_requests = st.metrics.upstream_requests + p.upstream_requests;
    upstream_errors = st.metrics.upstream_errors + p.upstream_errors;
  };
}

abbrev pub reply_of : Failure → ClientReply
reply_of f = refused f.status f.message f.retry_after

abbrev pub alias_of : Option Json → String
alias_of (some (str alias)) = alias
alias_of _ = ""

abbrev pub begin : ProxyState → ProxyState
begin st = record st {
  metrics = record st.metrics {
    requests = st.metrics.requests + 1;
    active = st.metrics.active + 1;
  };
}

abbrev pub reject_ingress : ProxyState → Finished
reject_ingress st = returned rate_limited false st
