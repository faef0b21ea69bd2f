-- ===== src/Usage/Opening.antt =====
-- `newUsageStore`: the database of a path, and the statements that set it up.
use shepard.Base.{
  ℕ, ◌≡◌, ◌↔◌, refl, String, Bool, true, false, List, [], ◌∷◌, ◌==◌, string_eq, if◌then◌else◌, All,
  arith, Bool-cases, inl, inr,
}
use shepard.Base.Text.{◌<>◌}

-- The statements, each by what it sets up: the source runs them in this order.
pub data Statement : Type 0 where
  journal_mode busy_timeout model_table daily_table client_day_index : Statement

abbrev pub statements : List Statement
statements = journal_mode ∷ busy_timeout ∷ model_table ∷ daily_table ∷ client_day_index ∷ []

-- `counter` is the value of `memoryDBCounter` after its increment.
unfoldable pub database_name : (ℕ → String) → ℕ → String → String
database_name show_count counter path =
    if path == ""
    then "file:shepard-memory-" <> show_count counter <> "?mode=memory&cache=shared"
    else path

-- What comes of opening: the driver's error, a statement's error after which the database is closed
-- again, or a store.
pub data Opening : Type 0 where
  not_opened : Opening
  closed_after : Statement → Opening
  opened : String → Opening

-- `executes` says which statements the database carries out.
unfoldable pub set_up : (Statement → Bool) → String → List Statement → Opening
set_up executes name [] = opened name
set_up executes name (s ∷ ss) =
    let rest = set_up executes name ss in if executes s then rest else closed_after s

unfoldable pub new_usage_store : (ℕ → String) → Bool → (Statement → Bool) → ℕ → String → Opening
unfolding database_name set_up
new_usage_store show_count opens executes counter path =
    if opens then set_up executes (database_name show_count counter path) statements else not_opened

abbrev pub is_opened : Opening → Bool
is_opened not_opened = false
is_opened (closed_after s) = false
is_opened (opened name) = true

set_up-is_opened :
    (executes : Statement → Bool) (name : String) (ss : List Statement)
    → (is_opened (set_up executes name ss) ≡ true) ↔ All (λ s. executes s ≡ true) ss
unfolding set_up
set_up-is_opened executes name [] = (λ e. tt, λ a. refl)
set_up-is_opened executes name (s ∷ ss) = elim (Bool-cases (executes s)) [
  | inl fine ↦ rw fine (
    (λ e. (refl, (set_up-is_opened executes name ss).0 e)),
    (λ a. (set_up-is_opened executes name ss).1 a.1),
  )
  | inr failed ↦ rw failed ((λ e. absurd (ground (arith, e))), (λ a. absurd (ground (arith, a.0))))
]

-- There is a store exactly when the database opens and carries out every statement.
pub new_usage_store-is_opened :
    (show_count : ℕ → String) (opens : Bool) (executes : Statement → Bool) (counter : ℕ)
    (path : String)
    → (is_opened (new_usage_store show_count opens executes counter path) ≡ true)
      ↔ ((opens ≡ true) × All (λ s. executes s ≡ true) statements)
unfolding new_usage_store
new_usage_store-is_opened show_count true executes counter path = (
  (λ e. (refl, (set_up-is_opened executes _ statements).0 e)),
  (λ (o, a). (set_up-is_opened executes _ statements).1 a),
)
new_usage_store-is_opened show_count false executes counter path =
    ((λ e. absurd (ground (arith, e))), (λ (o, a). absurd (ground (arith, o))))
