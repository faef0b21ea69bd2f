-- ===== src/Limiter/Decision.antt =====
-- When `admit` admits, and what it leaves behind when it does not.
use mathlib.Core.List.{Memᴰ}
use shepard.Base.{
  ℕ, ◌≤◌, ◌<◌, ◌≡◌, refl, ◌↔◌, ◌⊎◌, inl, inr, false, Option, none, some, List, [], ◌∷◌, Map, lookup,
  insert, is_pos, pos_part, All, ltb, if◌then◌else◌, arith, Bool-cases,
}
use shepard.Limiter.{
  AdmissionScope, BucketState, LimitStore, token, refill, in_use, at_capacity, check_scope,
  check_scopes, rejected, passed, admit, consume_all,
}

-- A scope has room and a token at the time `now`, where it sets such limits.
pub record IsReady (now : ℕ) (s : LimitStore) (scope : AdmissionScope) : Type 0 where
  pub has_room :
      (is_pos scope.limits.max_concurrent ≡ false)
      ⊎ (in_use scope.key s < pos_part scope.limits.max_concurrent)
  pub has_token :
      (is_pos scope.limits.requests_per_minute ≡ false)
      ⊎ (token ≤ (refill now scope.limits (lookup scope.key s.buckets)).tokens)

-- Why and how a list of scopes is refused: the first scope that is not ready decides.
pub data Refusal (now : ℕ) (s : LimitStore) (scopes : List AdmissionScope) (s' : LimitStore)
    : Type 0 where
  is_full :
      (scope : AdmissionScope)
      → Memᴰ scope scopes
      → pos_part scope.limits.max_concurrent ≤ in_use scope.key s
      → s' ≡ s
      → Refusal now s scopes s'
  is_dry :
      (scope : AdmissionScope)
      → Memᴰ scope scopes
      → (refill now scope.limits (lookup scope.key s.buckets)).tokens < token
      → s' ≡ record s {
        buckets = insert scope.key (refill now scope.limits (lookup scope.key s.buckets)) s.buckets;
      }
      → Refusal now s scopes s'

Refusal-tail :
    {now : ℕ} {s : LimitStore} {scopes : List AdmissionScope} {s' : LimitStore}
    (scope : AdmissionScope)
    → Refusal now s scopes s'
    → Refusal now s (scope ∷ scopes) s'
Refusal-tail scope (is_full other m h e) = is_full other (Memᴰ.tail m) h e
Refusal-tail scope (is_dry other m h e) = is_dry other (Memᴰ.tail m) h e

pub Refusal-concurrent :
    {now : ℕ} {s : LimitStore} {scopes : List AdmissionScope} {s' : LimitStore}
    → Refusal now s scopes s'
    → s'.concurrent ≡ s.concurrent
Refusal-concurrent (is_full scope m h e) = rw e
Refusal-concurrent (is_dry scope m h e) = rw e

module _ (now : ℕ) (s : LimitStore) where
  -- The states after a scope that passed.
  abbrev pub refreshed : Map BucketState → AdmissionScope → Map BucketState
  refreshed states scope =
      if is_pos scope.limits.requests_per_minute
      then insert scope.key (refill now scope.limits (lookup scope.key s.buckets)) states
      else states

  abbrev pub refreshed_all : Map BucketState → List AdmissionScope → Map BucketState
  refreshed_all states [] = states
  refreshed_all states (scope ∷ scopes) = refreshed_all (refreshed states scope) scopes

  check_scope-ready :
      (states : Map BucketState) (scope : AdmissionScope)
      → IsReady now s scope
      → check_scope now s states scope ≡ passed (refreshed states scope)
  unfolding check_scope
  check_scope-ready states scope r = ground (arith, r.has_room, r.has_token)

  check_scope-cases :
      (states : Map BucketState) (scope : AdmissionScope)
      → IsReady now s scope
        ⊎ ((s' : LimitStore) × (check_scope now s states scope ≡ rejected s')
            × (IsReady now s scope → ⊥)
            × ((scopes : List AdmissionScope) → Memᴰ scope scopes → Refusal now s scopes s'))
  unfolding check_scope
  check_scope-cases states scope = elim (Bool-cases (at_capacity s scope)) [
    | inl full ↦ inr (
      s,
      ground arith,
      (λ r. unfold at_capacity in ground (arith, r.has_room)),
      λ scopes m. is_full scope m (unfold at_capacity in ground arith) refl,
    )
    | inr room ↦ elim (Bool-cases (is_pos scope.limits.requests_per_minute)) [
      | inr unlimited ↦ inl (record { has_room = free room; has_token = inl unlimited })
      | inl limited ↦
          elim (Bool-cases
            (ltb (refill now scope.limits (lookup scope.key s.buckets)).tokens token)) [
              | inl dry ↦ inr (
                _,
                ground arith,
                (λ r. ground (arith, r.has_token)),
                λ scopes m. is_dry scope m (ground arith) refl,
              )
              | inr wet ↦ inl (record { has_room = free room; has_token = inr (ground arith) })
            ]
    ]
  ]
    where
      free :
          at_capacity s scope ≡ false
          → (is_pos scope.limits.max_concurrent ≡ false)
            ⊎ (in_use scope.key s < pos_part scope.limits.max_concurrent)
      free h = unfold at_capacity in ground arith

  -- The loop passes when every scope is ready, and else refuses as the first that is not says.
  check_scopes-cases :
      (states : Map BucketState) (scopes : List AdmissionScope)
      → ((check_scopes now s states scopes ≡ passed (refreshed_all states scopes))
          × All (IsReady now s) scopes)
        ⊎ ((s' : LimitStore) × (check_scopes now s states scopes ≡ rejected s')
            × (All (IsReady now s) scopes → ⊥)
            × Refusal now s scopes s')
  unfolding check_scopes
  check_scopes-cases states [] = inl (refl, tt)
  check_scopes-cases states (scope ∷ scopes) = elim (check_scope-cases states scope) [
    | inr (s', e, unready, refusal) ↦
        inr (s', rw (e, check_scopes), (λ r. unready r.0), refusal _ (Memᴰ.head refl))
    | inl ready ↦
        let e = check_scope-ready states scope ready in
        elim (check_scopes-cases (refreshed states scope) scopes) [
          | inl (f, rest) ↦ inl (rw (e, check_scopes) f, (ready, rest))
          | inr (s', f, unready, refusal) ↦
              inr (s', rw (e, check_scopes) f, (λ r. unready r.1), Refusal-tail scope refusal)
        ]
  ]

-- A call of `admit` either takes from every scope, when all are ready, or takes from none.
pub data Decided (now : ℕ) (scopes : List AdmissionScope) (s : LimitStore)
    : Option (List AdmissionScope) × LimitStore → Type 0 where
  admits :
      All (IsReady now s) scopes
      → Decided now scopes s (some scopes, consume_all (refreshed_all now s [] scopes) s scopes)
  refuses :
      (s' : LimitStore)
      → (All (IsReady now s) scopes → ⊥)
      → Refusal now s scopes s'
      → Decided now scopes s (none, s')

pub admit-Decided :
    (now : ℕ) (scopes : List AdmissionScope) (s : LimitStore)
    → Decided now scopes s (admit now scopes s)
unfolding admit
admit-Decided now scopes s = elim (check_scopes-cases now s [] scopes) [
  | inl (e, ready) ↦ rw (e, admit) (admits ready)
  | inr (s', e, unready, refusal) ↦ rw (e, admit) (refuses s' unready refusal)
]

-- `admit` admits exactly when every scope is ready: its concurrency is below its maximum, if it has
-- one, and its refilled bucket holds a token, if it has a rate.
pub admit-IsReady :
    (now : ℕ) (scopes : List AdmissionScope) (s : LimitStore)
    → ((admit now scopes s).0 ≡ some scopes) ↔ All (IsReady now s) scopes
admit-IsReady now scopes s = decided (admit-Decided now scopes s)
  where
    decided :
        {r : Option (List AdmissionScope) × LimitStore}
        → Decided now scopes s r
        → (r.0 ≡ some scopes) ↔ All (IsReady now s) scopes
    decided (admits ready) = (λ _. ready, λ _. refl)
    decided (refuses s' unready refusal) = (λ e. cc, λ ready. absurd (unready ready))

-- All or nothing: a refusal leaves the concurrency counters alone, and changes at most one bucket,
-- to the refilled one of a scope without a token.
pub admit_refused :
    (now : ℕ) (scopes : List AdmissionScope) (s : LimitStore)
    → (admit now scopes s).0 ≡ none
    → Refusal now s scopes (admit now scopes s).1
      × ((admit now scopes s).1.concurrent ≡ s.concurrent)
admit_refused now scopes s = decided (admit-Decided now scopes s)
  where
    decided :
        {r : Option (List AdmissionScope) × LimitStore}
        → Decided now scopes s r
        → r.0 ≡ none
        → Refusal now s scopes r.1 × (r.1.concurrent ≡ s.concurrent)
    decided (admits ready) e = cc
    decided (refuses s' unready refusal) e = (refusal, Refusal-concurrent refusal)
