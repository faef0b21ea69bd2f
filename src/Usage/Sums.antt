-- ===== src/Usage/Sums.antt =====
-- Sums of totals: what a set of keys adds up to in the entries and in the rows.
use shepard.Base.{
  ◌≡◌, refl, string_eq, if◌then◌else◌, String, Bool, true, false, List, [], ◌∷◌, arith, eq_iff,
  Bool-cases, inl, inr, nat_eq,
}
use shepard.Usage.{
  Totals, no_totals, add_totals, totals_of, Entry, DailyUsage, upsert_daily, is_row_of,
}

pub add_totals_comm : (a b : Totals) → add_totals a b ≡ add_totals b a
add_totals_comm a b = ground arith

pub add_totals_assoc :
    (a b c : Totals) → add_totals (add_totals a b) c ≡ add_totals a (add_totals b c)
add_totals_assoc a b c = ground arith

-- A set of keys: a day, a client and a model.
abbrev pub Keys : Type 0
Keys = String → String → String → Bool

abbrev pub holds_entry : Keys → Entry → Bool
holds_entry q e = q e.at.date e.client e.model

abbrev pub holds_row : Keys → DailyUsage → Bool
holds_row q row = q row.day row.client row.model

abbrev pub plus : Bool → Totals → Totals → Totals
plus b a rest = if b then add_totals a rest else rest

pub plus_left_comm : (b c : Bool) (x y z : Totals) → plus b x (plus c y z) ≡ plus c y (plus b x z)
plus_left_comm true true x y z = ground arith
plus_left_comm true false x y z = refl
plus_left_comm false c x y z = refl

-- What the entries with a key of the set add up to.
abbrev pub sum_entries : Keys → List Entry → Totals
sum_entries q [] = no_totals
sum_entries q (e ∷ es) = plus (holds_entry q e) (totals_of e) (sum_entries q es)

abbrev pub sum_rows : Keys → List DailyUsage → Totals
sum_rows q [] = no_totals
sum_rows q (row ∷ rows) = plus (holds_row q row) row.totals (sum_rows q rows)

pub plus_merged : (b : Bool) (x y z : Totals) → plus b (add_totals x y) z ≡ plus b y (plus b x z)
plus_merged true x y z = ground arith
plus_merged false x y z = refl

holds-is_row_of :
    (q : Keys) (e : Entry) (row : DailyUsage)
    → is_row_of e row ≡ true
    → holds_row q row ≡ holds_entry q e
holds-is_row_of q e row h =
    let same_day : row.day ≡ e.at.date = ground (arith, eq_iff row.day e.at.date) in
    let same_client : row.client ≡ e.client = ground (arith, eq_iff row.client e.client) in
    let same_model : row.model ≡ e.model = ground (arith, eq_iff row.model e.model) in
    rw (same_day, same_client, same_model)

pub sum_rows-upsert_daily :
    (q : Keys) (e : Entry) (rows : List DailyUsage)
    → sum_rows q (upsert_daily e rows) ≡ plus (holds_entry q e) (totals_of e) (sum_rows q rows)
unfolding upsert_daily
sum_rows-upsert_daily q e [] = refl
sum_rows-upsert_daily q e (row ∷ rows) = elim (Bool-cases (is_row_of e row)) [
  | inl same ↦
      rw (same, ← holds-is_row_of q e row same)
        (plus_merged (holds_row q row) row.totals (totals_of e) (sum_rows q rows))
  | inr other ↦
      rw (other, sum_rows-upsert_daily q e rows)
        (plus_left_comm (holds_row q row) (holds_entry q e) row.totals (totals_of e)
          (sum_rows q rows))
]
