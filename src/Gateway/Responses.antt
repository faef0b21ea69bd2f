-- ===== src/Gateway/Responses.antt =====
-- internal/gateway/gateway.go, `writeJSON`, `writeAPIError` and `writeRateLimitError`, and what each
-- handler writes with them: the responses that are the gateway's own.
-- The order in which an object's members are written is not modelled.
use shepard.Base.{
  ℕ, String, Bool, Option, none, some, List, [], ◌∷◌, ◌++◌, Map, insert, ◌==◌, nat_eq,
  if◌then◌else◌,
}
use shepard.Json.{Json, str, num, arr, obj, to_items, to_fields}
use shepard.Headers.{Header}
use shepard.Usage.{Totals, Usage, PeriodUsage}
use shepard.Usage.Answers.{UsageAnswer, by_model, by_period, bad_period, unreadable}
use shepard.Readiness.Handling.{Health, check_cancelled, health}
use shepard.Proxy.State.{ClientReply, refused, relayed}

-- The body of a response: JSON, the text of the metrics, or the relayed chunks.
pub data Content : Type 0 where
  json : Json → Content
  text : String → Content
  stream : List (List ℕ) → Content

pub record Written : Type 0 where
  pub status : ℕ
  pub header : Header
  pub content : Content

-- `h` is the header as the handler has set it.
unfoldable pub write_json_status : Header → ℕ → Json → Written
write_json_status h status value = record {
  status = status;
  header = insert "Content-Type" ("application/json" ∷ []) h;
  content = json value;
}

unfoldable pub write_json : ℕ → Json → Written
unfolding write_json_status
write_json status value = write_json_status [] status value

abbrev pub api_error : String → Json
api_error message = obj (
    to_fields (
      ("error", obj (to_fields (("message", str message) ∷ ("type", str "shepard_error") ∷ [])))
      ∷ []))

unfoldable pub write_api_error : Header → ℕ → String → Written
unfolding write_json_status
write_api_error h status message = write_json_status h status (api_error message)

-- `w.Header().Set("Retry-After", "1")`, where the handler says that a retry may help.
abbrev pub retry_header : Bool → Header
retry_header retry = if retry then insert "Retry-After" ("1" ∷ []) [] else []

unfoldable pub write_reply : ClientReply → Written
unfolding write_api_error
write_reply (refused status message retry) = write_api_error (retry_header retry) status message
write_reply (relayed status header chunks) = record {
  status = status;
  header = header;
  content = stream chunks;
}

abbrev pub shown_status : Map String → Map Json
shown_status [] = []
shown_status ((name, value) ∷ status) = (name, str value) ∷ shown_status status

unfoldable pub write_health : Health → Written
unfolding write_api_error write_json
write_health check_cancelled = write_api_error [] 503 "readiness check cancelled"
write_health (health code state providers) = write_json code (
    obj (
      to_fields
        (("status", str state) ∷ ("providers", obj (to_fields (shown_status providers))) ∷ [])))

-- What the source leaves to Go's formats: of a number, of nanoseconds as seconds, and of a time.
pub record Formats : Type 0 where
  pub show_count : ℕ → String
  pub show_seconds : ℕ → String
  pub show_time : ℕ → String

module _ (f : Formats) where
  abbrev pub count : ℕ → Json
  count n = num (f.show_count n)

  -- The columns under the names of their struct tags.
  abbrev pub totals_fields : Totals → Map Json
  totals_fields t =
      ("requests", count t.requests)
      ∷ ("errors", count t.errors)
      ∷ ("input_tokens", count t.input_tokens)
      ∷ ("output_tokens", count t.output_tokens)
      ∷ ("total_tokens", count t.total_tokens)
      ∷ []

  -- `omitempty` leaves out a status of 0; a time is a struct, and is never left out.
  abbrev pub usage_json : Usage → Json
  usage_json u = obj (
      to_fields (
        totals_fields u.totals
        ++ ("last_request_at", str (f.show_time u.last_request_at))
          ∷ (if u.last_upstream_code == 0
              then []
              else ("last_upstream_status", count u.last_upstream_code) ∷ [])))

  abbrev pub usages_json : Map Usage → Map Json
  usages_json [] = []
  usages_json ((model, usage) ∷ usages) = (model, usage_json usage) ∷ usages_json usages

  abbrev pub period_json : PeriodUsage → Json
  period_json u = obj (
      to_fields (
        ("period", str u.period)
        ∷ ("client", str u.client)
        ∷ ("model", str u.model)
        ∷ totals_fields u.totals))

  abbrev pub periods_json : List PeriodUsage → List Json
  periods_json [] = []
  periods_json (u ∷ us) = period_json u ∷ periods_json us

  unfoldable pub write_usage : UsageAnswer → Written
  unfolding write_api_error write_json
  write_usage (by_model usages) =
      write_json 200 (obj (to_fields (("models", obj (to_fields (usages_json usages))) ∷ [])))
  write_usage (by_period period items) = write_json 200 (
      obj
        (to_fields (("period", str period) ∷ ("usage", arr (to_items (periods_json items))) ∷ [])))
  write_usage bad_period = write_api_error [] 400 "period must be \"day\" or \"month\""
  write_usage unreadable = write_api_error [] 500 "could not read usage"

-- The configuration for OpenCode, or the error that no model is configured.
unfoldable pub write_opencode : Option Json → Written
unfolding write_json
write_opencode none =
    write_json 500 (obj (to_fields (("error", str "no models are configured") ∷ [])))
write_opencode (some body) = write_json 200 body
