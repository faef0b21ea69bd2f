-- ===== src/Usage/Reports.antt =====
-- `periodSnapshot`: its groups against the rows and the log.
use shepard.Base.{
  ◌≡◌, refl, ◌∙◌, All, ◌&&◌, ◌||◌, ◌==◌, string_eq, String, Bool, true, false, some, List, [], ◌∷◌,
  arith, eq_iff, Bool-cases, inl, inr,
}
use shepard.Base.Order.{text_lt_trans, text_lt_connected}
use shepard.Usage.{
  Totals, no_totals, DailyUsage, PeriodUsage, Period, period_of, parse_period, is_asked, has_key,
  comes_before, item_of, add_to_groups, group_rows, period_snapshot,
}
use shepard.Usage.Sums.{Keys, plus, plus_left_comm, plus_merged, sum_rows, sum_entries}
use shepard.Usage.Ledger.{Calls, record_all, committed, record_all-committed}

abbrev pub holds_item : Keys → PeriodUsage → Bool
holds_item q item = q item.period item.client item.model

-- What the groups with a key of the set add up to.
abbrev pub sum_items : Keys → List PeriodUsage → Totals
sum_items q [] = no_totals
sum_items q (item ∷ items) = plus (holds_item q item) item.totals (sum_items q items)

holds-has_key :
    (q : Keys) (item group : PeriodUsage)
    → has_key item.period item.client item.model group ≡ true
    → holds_item q group ≡ holds_item q item
holds-has_key q item group h =
    let same_period : group.period ≡ item.period =
      ground (arith, eq_iff group.period item.period) in
    let same_client : group.client ≡ item.client =
      ground (arith, eq_iff group.client item.client) in
    let same_model : group.model ≡ item.model = ground (arith, eq_iff group.model item.model) in
    rw (same_period, same_client, same_model)

sum_items-add_to_groups :
    (q : Keys) (item : PeriodUsage) (groups : List PeriodUsage)
    → sum_items q (add_to_groups item groups)
      ≡ plus (holds_item q item) item.totals (sum_items q groups)
unfolding add_to_groups
sum_items-add_to_groups q item [] = refl
sum_items-add_to_groups q item (group ∷ groups) =
    elim (Bool-cases (has_key item.period item.client item.model group)) [
      | inl same ↦
          rw (same, ← holds-has_key q item group same)
            (plus_merged (holds_item q group) group.totals item.totals (sum_items q groups))
      | inr other ↦ elim (Bool-cases (comes_before item group)) [
        | inl before ↦ rw (other, before) refl
        | inr after ↦
            rw (other, after, sum_items-add_to_groups q item groups)
              (plus_left_comm (holds_item q group) (holds_item q item) group.totals item.totals
                (sum_items q groups))
      ]
    ]

-- The rows' keys whose group is a key of the set.
abbrev pub grouped : Period → String → Keys → Keys
grouped period client q day c model =
    (client == "" || c == client) && q (period_of period day) c model

sum_items-group_rows :
    (period : Period) (client : String) (q : Keys) (rows : List DailyUsage)
    → sum_items q (group_rows period client rows) ≡ sum_rows (grouped period client q) rows
unfolding group_rows
sum_items-group_rows period client q [] = refl
sum_items-group_rows period client q (row ∷ rows) = elim (Bool-cases (is_asked client row)) [
  | inl asked ↦
      rw
        (
          asked,
          sum_items-add_to_groups q (item_of period row) (group_rows period client rows),
          sum_items-group_rows period client q rows,
        )
        refl
  | inr unasked ↦ rw (unasked, sum_items-group_rows period client q rows) refl
]

-- Strictly in the order of the report, so that each key has one group.
abbrev pub IsSorted : List PeriodUsage → Type 0
IsSorted [] = Unit
IsSorted (item ∷ items) = All (λ other. comes_before item other ≡ true) items × IsSorted items

comes_before_trans :
    (a b c : PeriodUsage)
    → comes_before a b ≡ true
    → comes_before b c ≡ true
    → comes_before a c ≡ true
comes_before_trans a b c h k = ground (
  arith,
  eq_iff a.period b.period,
  eq_iff b.period c.period,
  eq_iff a.period c.period,
  eq_iff a.client b.client,
  eq_iff b.client c.client,
  eq_iff a.client c.client,
  text_lt_trans a.period b.period c.period,
  text_lt_trans a.client b.client c.client,
  text_lt_trans a.model b.model c.model,
)

comes_before_connected :
    (item group : PeriodUsage)
    → has_key item.period item.client item.model group ≡ false
    → comes_before item group ≡ false
    → comes_before group item ≡ true
comes_before_connected item group h k = ground (
  arith,
  eq_iff group.period item.period,
  eq_iff item.period group.period,
  eq_iff group.client item.client,
  eq_iff item.client group.client,
  eq_iff group.model item.model,
  text_lt_connected item.period group.period,
  text_lt_connected item.client group.client,
  text_lt_connected item.model group.model,
)

All-add_to_groups :
    (first item : PeriodUsage) (groups : List PeriodUsage)
    → comes_before first item ≡ true
    → All (λ other. comes_before first other ≡ true) groups
    → All (λ other. comes_before first other ≡ true) (add_to_groups item groups)
unfolding add_to_groups
All-add_to_groups first item [] h a = (h, tt)
All-add_to_groups first item (group ∷ groups) h a =
    elim (Bool-cases (has_key item.period item.client item.model group)) [
      | inl same ↦ rw same (a.0, a.1)
      | inr other ↦ elim (Bool-cases (comes_before item group)) [
        | inl before ↦ rw (other, before) (h, a)
        | inr after ↦ rw (other, after) (a.0, All-add_to_groups first item groups h a.1)
      ]
    ]

All-before_trans :
    (item group : PeriodUsage) (groups : List PeriodUsage)
    → comes_before item group ≡ true
    → All (λ other. comes_before group other ≡ true) groups
    → All (λ other. comes_before item other ≡ true) groups
All-before_trans item group [] h a = tt
All-before_trans item group (other ∷ groups) h a =
    (comes_before_trans item group other h a.0, All-before_trans item group groups h a.1)

add_to_groups-IsSorted :
    (item : PeriodUsage) (groups : List PeriodUsage)
    → IsSorted groups
    → IsSorted (add_to_groups item groups)
unfolding add_to_groups
add_to_groups-IsSorted item [] s = (tt, tt)
add_to_groups-IsSorted item (group ∷ groups) s =
    elim (Bool-cases (has_key item.period item.client item.model group)) [
      | inl same ↦ rw same (s.0, s.1)
      | inr other ↦ elim (Bool-cases (comes_before item group)) [
        | inl before ↦
            rw (other, before) ((before, All-before_trans item group groups before s.0), s)
        | inr after ↦
            rw (other, after)
              (
                All-add_to_groups group item groups (comes_before_connected item group other after)
                    s.0,
                add_to_groups-IsSorted item groups s.1,
              )
      ]
    ]

group_rows-IsSorted :
    (period : Period) (client : String) (rows : List DailyUsage)
    → IsSorted (group_rows period client rows)
unfolding group_rows
group_rows-IsSorted period client [] = tt
group_rows-IsSorted period client (row ∷ rows) = elim (Bool-cases (is_asked client row)) [
  | inl asked ↦ rw asked (
      add_to_groups-IsSorted (item_of period row) (group_rows period client rows)
        (group_rows-IsSorted period client rows))
  | inr unasked ↦ rw unasked (group_rows-IsSorted period client rows)
]

-- The report of a day or a month, if the query succeeds, has its items in strictly ascending order
-- of period, client and model, so that no key occurs twice; and over any choice of keys, the items
-- sum to the committed entries of the client that is asked for, or of all.
pub period_snapshot-committed :
    (calls : Calls) (period : String) (p : Period) (client : String)
    → parse_period period ≡ some p
    → (items : List PeriodUsage) × (period_snapshot false period client (record_all calls)
        ≡ some items)
      × IsSorted items
      × ((q : Keys) → sum_items q items ≡ sum_entries (grouped p client q) (committed calls))
unfolding period_snapshot
period_snapshot-committed calls period p client e = (
  group_rows p client (record_all calls).daily_usage,
  ground (arith, e),
  group_rows-IsSorted p client (record_all calls).daily_usage,
  (λ q.
      sum_items-group_rows p client q (record_all calls).daily_usage
      ∙ (record_all-committed calls).1 (grouped p client q)),
)
