-- ===== src/Readiness/Results.antt =====
-- What a probe of the providers reports.
use mathlib.Core.Option
use shepard.Base.{
  ◌≡◌, refl, String, Bool, false, ◌||◌, Option, none, some, [], ◌∷◌, Map, lookup, insert,
  lookup-insert, string_eq, eq_iff, arith, Option-cases, inl, inr,
}
use shepard.Readiness.{ReadinessResult, no_result, status_text, collect, check_readiness}

-- Each provider answers once.
abbrev pub Distinct : Map Bool → Type 0
Distinct [] = Unit
Distinct ((name, ok) ∷ items) = (lookup name items ≡ none) × Distinct items

abbrev pub any_ok : Map Bool → Bool
any_ok [] = false
any_ok ((name, ok) ∷ items) = ok || any_ok items

abbrev text_or : Option Bool → Option String → Option String
text_or none o = o
text_or (some ok) o = some (status_text ok)

collect-ready :
    (items : Map Bool) (r : ReadinessResult) → (collect items r).ready ≡ (any_ok items || r.ready)
unfolding collect
collect-ready [] r = refl
collect-ready ((name, ok) ∷ items) r = ground (
  arith,
  collect-ready items
      (record { status = insert name (status_text ok) r.status; ready = ok || r.ready }),
)

collect-status :
    (items : Map Bool) (r : ReadinessResult) (key : String)
    → Distinct items
    → lookup key (collect items r).status ≡ text_or (lookup key items) (lookup key r.status)
unfolding collect lookup
collect-status [] r key d = refl
collect-status ((name, ok) ∷ items) r key d =
    let next : ReadinessResult = record {
      status = insert name (status_text ok) r.status;
      ready = ok || r.ready;
    } in
    ground (
      arith,
      d.0,
      eq_iff name key,
      collect-status items next key d.1,
      lookup-insert name key (status_text ok) r.status,
    )

-- If each provider answers once, then in whatever order the answers arrive, the status of each
-- provider is the text of its answer, and the gateway is ready exactly when some provider is.
pub check_readiness_lem :
    (items : Map Bool) (name : String)
    → Distinct items
    → (lookup name (check_readiness items).status ≡ Option.map status_text (lookup name items))
      × ((check_readiness items).ready ≡ any_ok items)
unfolding check_readiness lookup
check_readiness_lem items name d =
    let status_is = collect-status items no_result name d in
    let ready_is = collect-ready items no_result in
    elim (Option-cases (lookup name items)) [
      | inl e ↦ (ground (arith, status_is, e), ground (arith, ready_is))
      | inr (ok, e) ↦ (ground (arith, status_is, e), ground (arith, ready_is))
    ]
