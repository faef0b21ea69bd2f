-- ===== src/Metrics.antt =====
-- internal/gateway/metrics.go, `writePrometheus`, and the sums that its counters keep. The counters
-- themselves are the record of Proxy.
pub mod Balance
mod Tests
use shepard.Base.{ℕ, String, List, [], ◌∷◌}
use shepard.Base.Text.{◌<>◌}
use shepard.Proxy.State.{Metrics}

-- `show_count` and `show_seconds` are the formats of a number, and of nanoseconds as seconds.
module _ (show_count show_seconds : ℕ → String) where
  abbrev pub line : String → String → String
  line name value = "shepard_" <> name <> " " <> value <> "\n"

  unfoldable pub lines : List (String × String) → String
  lines [] = ""
  lines ((name, value) ∷ samples) = line name value <> lines samples

  -- The name and the value of each sample, in the source's order.
  abbrev pub samples_of : Metrics → ℕ → List (String × String)
  samples_of m queue_depth =
      ("requests_total", show_count m.requests)
      ∷ ("requests_completed_total", show_count m.completed)
      ∷ ("requests_failed_total", show_count m.failed)
      ∷ ("requests_active", show_count m.active)
      ∷ ("upstream_requests_total", show_count m.upstream_requests)
      ∷ ("upstream_errors_total", show_count m.upstream_errors)
      ∷ ("queue_waits_total", show_count m.queue_waits)
      ∷ ("queue_rejected_total", show_count m.queue_rejected)
      ∷ ("queue_depth", show_count queue_depth)
      ∷ ("request_duration_seconds_total", show_seconds m.duration_nanos)
      ∷ []

  unfoldable pub write_prometheus : Metrics → ℕ → String
  unfolding lines
  write_prometheus m queue_depth = lines (samples_of m queue_depth)
