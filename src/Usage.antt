-- ===== src/Usage.antt =====
-- internal/gateway/usage.go: the usage tables, what a request adds to them, and the reports.
-- A table is its rows; SQLite's integers are numbers without a bound. A statement that fails is an
-- argument (`Faults`).
pub mod Extraction
pub mod Opening
pub mod Counting
pub mod Sums
pub mod Ledger
pub mod Reports
pub mod Answers
mod Tests
use shepard.Base.{
  ℕ, ◌+◌, ◌&&◌, ◌||◌, not, ◌==◌, nat_eq, string_eq, leb, if◌then◌else◌, String, Bool, true, false,
  Option, none, some, List, [], ◌∷◌, Map, lookup, insert,
}
use shepard.Base.Text.{text_lt, take_text}

-- The columns that both tables and both reports have.
pub record Totals : Type 0 where
  pub requests : ℕ
  pub errors : ℕ
  pub input_tokens : ℕ
  pub output_tokens : ℕ
  pub total_tokens : ℕ

abbrev pub no_totals : Totals
no_totals = record {
  requests = 0;
  errors = 0;
  input_tokens = 0;
  output_tokens = 0;
  total_tokens = 0;
}

abbrev pub add_totals : Totals → Totals → Totals
add_totals a b = record {
  requests = a.requests + b.requests;
  errors = a.errors + b.errors;
  input_tokens = a.input_tokens + b.input_tokens;
  output_tokens = a.output_tokens + b.output_tokens;
  total_tokens = a.total_tokens + b.total_tokens;
}

pub record Usage : Type 0 where
  pub totals : Totals
  pub last_request_at : ℕ
  pub last_upstream_code : ℕ

pub record DailyUsage : Type 0 where
  pub day : String
  pub client : String
  pub model : String
  pub totals : Totals

pub record PeriodUsage : Type 0 where
  pub period : String
  pub client : String
  pub model : String
  pub totals : Totals

pub record UsageDb : Type 0 where
  pub model_usage : Map Usage
  pub daily_usage : List DailyUsage

abbrev pub empty_db : UsageDb
empty_db = record { model_usage = []; daily_usage = [] }

-- A time in UTC: its nanoseconds, and its date as text.
pub record Instant : Type 0 where
  pub unix_nano : ℕ
  pub date : String

-- What `recordAt` writes: its arguments, and the tokens that `extractUsage` found.
pub record Entry : Type 0 where
  pub at : Instant
  pub client : String
  pub model : String
  pub status : ℕ
  pub tokens : ℕ × ℕ × ℕ

abbrev pub totals_of : Entry → Totals
totals_of e = record {
  requests = 1;
  errors = if leb 400 e.status then 1 else 0;
  input_tokens = e.tokens.0;
  output_tokens = e.tokens.1;
  total_tokens = e.tokens.2;
}

-- INSERT INTO model_usage … ON CONFLICT(model) DO UPDATE.
abbrev pub updated_usage : Entry → Option Usage → Usage
updated_usage e none = record {
  totals = totals_of e;
  last_request_at = e.at.unix_nano;
  last_upstream_code = e.status;
}
updated_usage e (some u) = record {
  totals = add_totals u.totals (totals_of e);
  last_request_at = e.at.unix_nano;
  last_upstream_code = e.status;
}

unfoldable pub upsert_model : Entry → Map Usage → Map Usage
upsert_model e rows = insert e.model (updated_usage e (lookup e.model rows)) rows

abbrev pub is_row_of : Entry → DailyUsage → Bool
is_row_of e row = row.day == e.at.date && row.client == e.client && row.model == e.model

-- INSERT INTO daily_usage … ON CONFLICT(day, client, model) DO UPDATE.
unfoldable pub upsert_daily : Entry → List DailyUsage → List DailyUsage
upsert_daily e [] =
    record { day = e.at.date; client = e.client; model = e.model; totals = totals_of e } ∷ []
upsert_daily e (row ∷ rows) =
    if is_row_of e row
    then record row { totals = add_totals row.totals (totals_of e) } ∷ rows
    else row ∷ upsert_daily e rows

-- Which statement of the transaction fails, if one does.
pub record Faults : Type 0 where
  pub begin_fails : Bool
  pub model_fails : Bool
  pub daily_fails : Bool
  pub commit_fails : Bool

-- An early return rolls the transaction back.
unfoldable pub record_entry : Faults → Entry → UsageDb → UsageDb
unfolding upsert_model upsert_daily
record_entry faults e db =
    if faults.begin_fails
    then db
    else if faults.model_fails
    then db
    else if faults.daily_fails
    then db
    else if faults.commit_fails
    then db
    else record {
      model_usage = upsert_model e db.model_usage;
      daily_usage = upsert_daily e db.daily_usage;
    }

-- `snapshot`: a query that fails reads as no usage.
unfoldable pub collect_usage : Map Usage → Map Usage
collect_usage [] = []
collect_usage ((model, usage) ∷ rows) = insert model usage (collect_usage rows)

unfoldable pub snapshot : Bool → UsageDb → Map Usage
unfolding collect_usage
snapshot query_fails db = if query_fails then [] else collect_usage db.model_usage

pub data Period : Type 0 where
  day month : Period

unfoldable pub parse_period : String → Option Period
parse_period s = if s == "day" then some day else if s == "month" then some month else none

-- `day`, or `substr(day, 1, 7)`.
unfoldable pub period_of : Period → String → String
period_of day date = date
period_of month date = take_text 7 date

abbrev pub is_asked : String → DailyUsage → Bool
is_asked client row = client == "" || row.client == client

abbrev pub has_key : String → String → String → PeriodUsage → Bool
has_key period client model item =
    item.period == period && item.client == client && item.model == model

-- ORDER BY period, client, model.
abbrev pub comes_before : PeriodUsage → PeriodUsage → Bool
comes_before a b =
    text_lt a.period b.period
    || a.period == b.period
      && (text_lt a.client b.client || a.client == b.client && text_lt a.model b.model)

-- GROUP BY: a row joins the group that has its key, or starts one in its place.
unfoldable pub add_to_groups : PeriodUsage → List PeriodUsage → List PeriodUsage
add_to_groups item [] = item ∷ []
add_to_groups item (group ∷ groups) =
    let later = group ∷ add_to_groups item groups in
    if has_key item.period item.client item.model group
    then record group { totals = add_totals group.totals item.totals } ∷ groups
    else if comes_before item group
    then item ∷ group ∷ groups
    else later

abbrev pub item_of : Period → DailyUsage → PeriodUsage
item_of period row = record {
  period = period_of period row.day;
  client = row.client;
  model = row.model;
  totals = row.totals;
}

unfoldable pub group_rows : Period → String → List DailyUsage → List PeriodUsage
unfolding add_to_groups period_of
group_rows period client [] = []
group_rows period client (row ∷ rows) =
    let rest = group_rows period client rows in
    if is_asked client row then add_to_groups (item_of period row) rest else rest

-- `periodSnapshot`: `none` where the source returns an error.
unfoldable pub period_snapshot : Bool → String → String → UsageDb → Option (List PeriodUsage)
unfolding parse_period group_rows
period_snapshot query_fails period client db = elim (parse_period period) [
  | none ↦ none
  | some p ↦ if query_fails then none else some (group_rows p client db.daily_usage)
]
