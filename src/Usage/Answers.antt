-- ===== src/Usage/Answers.antt =====
-- internal/gateway/gateway.go, `usageReport`.
use shepard.Base.{
  ◌&&◌, not, ◌==◌, nat_eq, string_eq, if◌then◌else◌, String, Bool, Option, none, some, List, Map,
}
use shepard.Usage.{Usage, UsageDb, PeriodUsage, snapshot, period_snapshot}

-- The answers of `usageReport`.
pub data UsageAnswer : Type 0 where
  by_model : Map Usage → UsageAnswer
  by_period : String → List PeriodUsage → UsageAnswer
  bad_period unreadable : UsageAnswer

abbrev pub answer_period : String → Option (List PeriodUsage) → UsageAnswer
answer_period period none = unreadable
answer_period period (some items) = by_period period items

-- `period` and `client` are the values of the query, "" if there is none.
unfoldable pub usage_report : Bool → String → String → UsageDb → UsageAnswer
unfolding snapshot period_snapshot
usage_report query_fails period client db =
    if period == ""
    then by_model (snapshot query_fails db)
    else if not (period == "day") && not (period == "month")
    then bad_period
    else answer_period period (period_snapshot query_fails period client db)
