-- ===== src/Usage/Tests.antt =====
-- The tables and the reports after a few requests.
use shepard.Base.{
  ℕ, ◌*◌, ◌≡◌, refl, ◌==◌, string_eq, if◌then◌else◌, String, true, false, none, some, List, [], ◌∷◌,
  lookup, insert,
}
use shepard.Base.Text.{text_lt, take_text, split, trim_space, has_prefix, trim_prefix}
use shepard.Usage.{
  Totals, Entry, Faults, PeriodUsage, record_entry, period_snapshot, month, parse_period,
}
use shepard.Usage.Sums.{Keys, sum_rows, sum_entries}
use shepard.Usage.Ledger.{Calls, record_all, committed, summary, record_all-committed}
use shepard.Usage.Reports.{IsSorted, sum_items, grouped, period_snapshot-committed}
use shepard.Usage.Extraction.{UsageJson, no_tokens, tokens_of, extract_usage}
use shepard.Usage.Counting.{IsFieldwise, latest, reports, events, extract_usage-latest}

abbrev no_faults : Faults
no_faults = record {
  begin_fails = false;
  model_fails = false;
  daily_fails = false;
  commit_fails = false;
}

abbrev entry : String → String → ℕ → Entry
entry date client status = record {
  at = record { unix_nano = 9; date = date };
  client = client;
  model = "chat";
  status = status;
  tokens = (3, 4, 7);
}

-- The newest first; the second one fails to commit.
abbrev calls : Calls
calls =
    (no_faults, entry "2026-02-01" "ip:1" 200)
    ∷ (record no_faults { commit_fails = true }, entry "2026-01-31" "ip:1" 200)
    ∷ (no_faults, entry "2026-01-31" "ip:2" 503)
    ∷ (no_faults, entry "2026-01-30" "ip:2" 200)
    ∷ []

abbrev totals : ℕ → ℕ → Totals
totals requests errors = record {
  requests = requests;
  errors = errors;
  input_tokens = 3 * requests;
  output_tokens = 4 * requests;
  total_tokens = 7 * requests;
}

months :
    period_snapshot false "month" "" (record_all calls)
    ≡ some (
        record { period = "2026-01"; client = "ip:2"; model = "chat"; totals = totals 2 1 }
        ∷ record { period = "2026-02"; client = "ip:1"; model = "chat"; totals = totals 1 0 }
        ∷ [])
unfolding period_snapshot record_all record_entry lookup insert text_lt take_text
months = refl

record_all-committed_example :
    ((model : String)
      → lookup model (record_all calls).model_usage ≡ summary model (committed calls))
    × ((q : Keys) → sum_rows q (record_all calls).daily_usage ≡ sum_entries q (committed calls))
record_all-committed_example = record_all-committed calls

month_parsed : parse_period "month" ≡ some month
unfolding parse_period
month_parsed = refl

period_snapshot-committed_example :
    (items : List PeriodUsage) × (period_snapshot false "month" "ip:2" (record_all calls)
      ≡ some items)
    × IsSorted items
    × ((q : Keys) → sum_items q items ≡ sum_entries (grouped month "ip:2" q) (committed calls))
period_snapshot-committed_example =
    period_snapshot-committed calls "month" month "ip:2" month_parsed

-- A decoder that knows two usage objects.
abbrev toy_json : UsageJson
toy_json = record {
  Raw = ℕ;
  usage_of =
      λ text. if text == "{early}" then some 1 else if text == "{late}" then some 2 else none;
  decode_into = λ n best. some (record best { prompt_tokens = n; total_tokens = 0 });
}

last_event_counts : extract_usage toy_json "data: {early}\ndata: [DONE]\n data:{late}\n" ≡ (2, 0, 2)
unfolding extract_usage split trim_space has_prefix trim_prefix
last_event_counts = refl

toy_json-IsFieldwise : IsFieldwise toy_json
toy_json-IsFieldwise = record {
  reported = λ n.
      some (record {
        prompt = some n;
        completion = none;
        input = none;
        output = none;
        total = some 0;
      });
  writes = λ n best. refl;
}

abbrev two_events : String
two_events = "data: {early}\ndata: [DONE]\n data:{late}\n"

extract_usage-latest_example :
    extract_usage toy_json two_events
    ≡ tokens_of toy_json (
        latest no_tokens
          (reports toy_json toy_json-IsFieldwise (two_events ∷ events (split two_events b'\n'))))
extract_usage-latest_example = extract_usage-latest toy_json toy_json-IsFieldwise two_events
