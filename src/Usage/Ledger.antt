-- ===== src/Usage/Ledger.antt =====
-- The tables against the log of what was committed.
use shepard.Base.{
  ◌≡◌, refl, ◌||◌, ◌==◌, string_eq, if◌then◌else◌, String, Bool, true, false, Option, none, some,
  List, [], ◌∷◌, Map, lookup, lookup-insert, arith, eq_iff, Bool-cases, inl, inr,
}
use shepard.Usage.{
  no_totals, Entry, Usage, UsageDb, empty_db, Faults, upsert_model, upsert_daily, updated_usage,
  record_entry,
}
use shepard.Usage.Sums.{Keys, sum_entries, sum_rows, sum_rows-upsert_daily}

-- The calls of `recordAt`, the newest first.
abbrev pub Calls : Type 0
Calls = List (Faults × Entry)

unfoldable pub record_all : Calls → UsageDb
record_all [] = empty_db
record_all ((faults, e) ∷ calls) = record_entry faults e (record_all calls)

abbrev pub fails : Faults → Bool
fails f = f.begin_fails || f.model_fails || f.daily_fails || f.commit_fails

-- The entries whose transaction was committed, the newest first.
abbrev pub committed : Calls → List Entry
committed [] = []
committed ((faults, e) ∷ calls) = if fails faults then committed calls else e ∷ committed calls

-- The newest entry of a model.
abbrev pub newest : String → List Entry → Option Entry
newest model [] = none
newest model (e ∷ es) = if e.model == model then some e else newest model es

abbrev pub of_model : String → Keys
of_model model date client m = m == model

-- What the log says of a model.
abbrev pub summary : String → List Entry → Option Usage
summary model es = elim (newest model es) [
  | none ↦ none
  | some e ↦ some (record {
    totals = sum_entries (of_model model) es;
    last_request_at = e.at.unix_nano;
    last_upstream_code = e.status;
  })
]

record_entry-fails :
    (f : Faults) (e : Entry) (db : UsageDb) → fails f ≡ true → record_entry f e db ≡ db
unfolding record_entry
record_entry-fails f e db h = ground arith

record_entry-done :
    (f : Faults) (e : Entry) (db : UsageDb)
    → fails f ≡ false
    → record_entry f e db ≡ record {
      model_usage = upsert_model e db.model_usage;
      daily_usage = upsert_daily e db.daily_usage;
    }
unfolding record_entry
record_entry-done f e db h = ground arith

-- No entry of a model, no totals.
newest-none :
    (model : String) (es : List Entry)
    → newest model es ≡ none
    → sum_entries (of_model model) es ≡ no_totals
newest-none model [] h = refl
newest-none model (e ∷ es) h = ground (arith, newest-none model es)

summary-cons :
    (model : String) (e : Entry) (es : List Entry)
    → summary model (e ∷ es)
      ≡ (if e.model == model then some (updated_usage e (summary model es)) else summary model es)
summary-cons model e es = ground (arith, newest-none model es)

lookup-upsert_model :
    (model : String) (e : Entry) (rows : Map Usage)
    → lookup model (upsert_model e rows)
      ≡ (if e.model == model then some (updated_usage e (lookup model rows)) else lookup model rows)
unfolding upsert_model
lookup-upsert_model model e rows = ground (
  arith,
  eq_iff e.model model,
  lookup-insert e.model model (updated_usage e (lookup e.model rows)) rows,
)

-- The usage tables refine a log. After any calls of `recordAt`, some of whose statements fail, the
-- row of a model shows the sums over the committed entries of the model, with the time and the
-- status of the newest one, and there is no row if there is no entry; and over any choice of days,
-- clients and models, the rows of the daily table sum to the committed entries. So a transaction
-- that fails leaves nothing, and no entry is lost, counted twice, or in one table only.
pub record_all-committed :
    (calls : Calls)
    → ((model : String)
        → lookup model (record_all calls).model_usage ≡ summary model (committed calls))
      × ((q : Keys) → sum_rows q (record_all calls).daily_usage ≡ sum_entries q (committed calls))
unfolding record_all lookup
record_all-committed [] = ((λ model. refl), (λ q. refl))
record_all-committed ((f, e) ∷ calls) =
    let (by_model, by_keys) = record_all-committed calls in
    elim (Bool-cases (fails f)) [
      | inl failed ↦
          rw (record_entry-fails f e (record_all calls) failed, failed) (by_model, by_keys)
      | inr done ↦
          rw (record_entry-done f e (record_all calls) done, done)
            (
              (λ model.
                  rw
                    (
                      lookup-upsert_model model e (record_all calls).model_usage,
                      by_model model,
                      summary-cons model e (committed calls),
                    )
                    refl),
              (λ q. rw (sum_rows-upsert_daily q e (record_all calls).daily_usage, by_keys q) refl),
            )
    ]
