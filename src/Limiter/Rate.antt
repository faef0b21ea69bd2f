-- ===== src/Limiter/Rate.antt =====
-- The token bucket of one key: over any history of calls, admissions stay within the burst and
-- what the rate adds.
use native.Mathlib.Nat.{add-zero}
use shepard.Base.{
  ℕ, ◌+◌, ◌-◌, ◌*◌, ◌≤◌, ◌≡◌, refl, ◌⊎◌, inl, inr, ◌&&◌, ◌||◌, Bool, true, false, Option, none,
  some, List, [], ◌∷◌, String, Map, lookup, lookup-insert, is_pos, pos_part, All, All-mem, arith,
  ◌==◌, string_eq, if◌then◌else◌, eq_iff, Bool-cases, ap,
}
use shepard.Config.Types.{Limits}
use shepard.Limiter.{
  AdmissionScope, BucketState, LimitStore, token, refill, admit, consume, consume_all, release,
  release_scope, state_or_zero, spend,
}
use shepard.Limiter.Decision.{
  IsReady, Refusal, is_full, is_dry, Decided, admits, refuses, admit-Decided, refreshed,
  refreshed_all,
}

pub span : (x y z r : ℕ) → x ≤ y → y ≤ z → (z - x) * r ≡ (y - x) * r + (z - y) * r
span x y z r h k =
    let e : z - x ≡ (y - x) + (z - y) = omega arith in omega (arith, ap (λ (t : ℕ). t * r) e)

module _ (key : String) (l : Limits) where
  -- Whether a call takes a token of the key.
  abbrev pub mentions : List AdmissionScope → Bool
  mentions [] = false
  mentions (scope ∷ scopes) =
      scope.key == key && is_pos scope.limits.requests_per_minute || mentions scopes

  -- Every scope with the key has the limits `l`.
  abbrev pub Agrees : AdmissionScope → Type 0
  Agrees scope = scope.key ≡ key → scope.limits ≡ l

  lookup-refreshed_all :
      (now : ℕ) (s : LimitStore) (states : Map BucketState) (scopes : List AdmissionScope)
      → All Agrees scopes
      → lookup key (refreshed_all now s states scopes) ≡ (
          if mentions scopes then some (refill now l (lookup key s.buckets)) else lookup key states)
  lookup-refreshed_all now s states [] a = refl
  lookup-refreshed_all now s states (scope ∷ scopes) a = ground (
    arith,
    a.0,
    eq_iff scope.key key,
    lookup-insert scope.key key (refill now scope.limits (lookup scope.key s.buckets)) states,
    lookup-refreshed_all now s (refreshed now s states scope) scopes a.1,
  )

  lookup-consume_all :
      (states : Map BucketState) (s : LimitStore) (scopes : List AdmissionScope)
      → lookup key (consume_all states s scopes).buckets ≡ (
          if mentions scopes
          then some (spend (state_or_zero (lookup key states)))
          else lookup key s.buckets)
  unfolding consume_all consume
  lookup-consume_all states s [] = refl
  lookup-consume_all states s (scope ∷ scopes) = ground (
    arith,
    eq_iff scope.key key,
    lookup-insert scope.key key (spend (state_or_zero (lookup scope.key states))) s.buckets,
    lookup-consume_all states (consume states s scope) scopes,
  )

  lookup-admitted :
      (now : ℕ) (s : LimitStore) (scopes : List AdmissionScope)
      → All Agrees scopes
      → lookup key (consume_all (refreshed_all now s [] scopes) s scopes).buckets ≡ (
          if mentions scopes
          then some (spend (refill now l (lookup key s.buckets)))
          else lookup key s.buckets)
  lookup-admitted now s scopes a = ground (
    arith,
    lookup-refreshed_all now s [] scopes a,
    lookup-consume_all (refreshed_all now s [] scopes) s scopes,
  )

  pub lookup-refused :
      {now : ℕ} {s : LimitStore} {scopes : List AdmissionScope} {s' : LimitStore}
      → All Agrees scopes
      → Refusal now s scopes s'
      → (lookup key s'.buckets ≡ lookup key s.buckets)
        ⊎ (lookup key s'.buckets ≡ some (refill now l (lookup key s.buckets)))
  lookup-refused a (is_full scope m h e) = inl (rw e)
  lookup-refused a (is_dry scope m h e) = elim (Bool-cases (scope.key == key)) [
    | inl same ↦
        let eq : scope.key ≡ key = (eq_iff scope.key key).0 same in
        let agrees : scope.limits ≡ l = All-mem Agrees m a eq in
        inr (rw (e, lookup-insert, same, agrees, eq))
    | inr other ↦ inl (rw (e, lookup-insert, other))
  ]

  buckets-release :
      (scopes : List AdmissionScope) (s : LimitStore) → (release scopes s).buckets ≡ s.buckets
  unfolding release release_scope
  buckets-release [] s = refl
  buckets-release (scope ∷ scopes) s =
      ground (arith, buckets-release scopes (release_scope s scope))

  abbrev pub granted : List AdmissionScope → Option (List AdmissionScope) → ℕ
  granted scopes none = 0
  granted scopes (some _) = if mentions scopes then 1 else 0

  -- A history of the key's bucket, from a time at which it did not exist: the time of the last
  -- call and the number of calls that were admitted with a token of the key.
  pub data History (start : ℕ) : ℕ → ℕ → LimitStore → Type 0 where
    starts : (s : LimitStore) → lookup key s.buckets ≡ none → History start start 0 s
    asks :
        {last n : ℕ} {s : LimitStore} (now : ℕ) (scopes : List AdmissionScope)
        → History start last n s
        → last ≤ now
        → All Agrees scopes
        → History start now (n + granted scopes (admit now scopes s).0) (admit now scopes s).1
    releases :
        {last n : ℕ} {s : LimitStore} (scopes : List AdmissionScope)
        → History start last n s
        → History start last n (release scopes s)

  abbrev rate : ℕ
  rate = pos_part l.requests_per_minute

  -- What has been granted and what is left never exceed the burst and the refill.
  abbrev Balanced : ℕ → ℕ → ℕ → BucketState → Type 0
  Balanced start last n b =
      (start ≤ b.updated)
      × (b.updated ≤ last)
      × (token * n + b.tokens ≤ token * pos_part l.burst + (b.updated - start) * rate)

  abbrev IsAccounted : ℕ → ℕ → ℕ → Option BucketState → Type 0
  IsAccounted start last n none = n ≡ 0
  IsAccounted start last n (some b) = Balanced start last n b

  refill-Balanced :
      (start last now n : ℕ) (o : Option BucketState)
      → start ≤ last
      → last ≤ now
      → IsAccounted start last n o
      → Balanced start now n (refill now l o)
  unfolding refill
  refill-Balanced start last now n none h k v = omega arith
  refill-Balanced start last now n (some b) h k v =
      omega (arith, span start b.updated now (pos_part l.requests_per_minute) v.0 (omega arith))

  spend-Balanced :
      (start now n : ℕ) (b : BucketState)
      → token ≤ b.tokens
      → Balanced start now n b
      → Balanced start now (n + 1) (spend b)
  spend-Balanced start now n b h v = (v.0, v.1, omega arith)

  -- A call that takes a token of the key was ready for it.
  mentions-token :
      (now : ℕ) (s : LimitStore) (scopes : List AdmissionScope)
      → All Agrees scopes
      → All (IsReady now s) scopes
      → mentions scopes ≡ true
      → token ≤ (refill now l (lookup key s.buckets)).tokens
  mentions-token now s [] a r e = cc
  mentions-token now s (scope ∷ scopes) a r e =
      ground (arith, a.0, r.0.has_token, eq_iff scope.key key, mentions-token now s scopes a.1 r.1)

  History-last : {start last n : ℕ} {s : LimitStore} → History start last n s → start ≤ last
  History-last (starts s e) = omega arith
  History-last (asks now scopes h k a) = omega (arith, History-last h)
  History-last (releases scopes h) = History-last h

  IsAccounted-later :
      (start last now n : ℕ) (o : Option BucketState)
      → last ≤ now
      → IsAccounted start last n o
      → IsAccounted start now n o
  IsAccounted-later start last now n none k v = v
  IsAccounted-later start last now n (some b) k v = (v.0, omega arith, v.2)

  asks-IsAccounted :
      {start last now : ℕ} (n : ℕ) {scopes : List AdmissionScope} {s : LimitStore}
      {r : Option (List AdmissionScope) × LimitStore}
      → start ≤ last
      → last ≤ now
      → All Agrees scopes
      → IsAccounted start last n (lookup key s.buckets)
      → Decided now scopes s r
      → IsAccounted start now (n + granted scopes r.0) (lookup key r.1.buckets)
  asks-IsAccounted {start} {last} {now} n {scopes} {s} h k a v (admits ready) =
      rw (lookup-admitted now s scopes a) (elim (Bool-cases (mentions scopes)) [
        | inl yes_key ↦ rw yes_key (
            spend-Balanced start now n (refill now l (lookup key s.buckets))
              (mentions-token now s scopes a ready yes_key)
              (refill-Balanced start last now n (lookup key s.buckets) h k v))
        | inr no_key ↦
            rw (no_key, add-zero) (IsAccounted-later start last now n (lookup key s.buckets) k v)
      ])
  asks-IsAccounted {start} {last} {now} n {scopes} {s} h k a v (refuses s' unready refusal) =
      rw add-zero (elim (lookup-refused a refusal) [
        | inl same ↦ rw same (IsAccounted-later start last now n (lookup key s.buckets) k v)
        | inr fresh ↦ rw fresh (refill-Balanced start last now n (lookup key s.buckets) h k v)
      ])

  History-IsAccounted :
      {start last n : ℕ} {s : LimitStore}
      → History start last n s
      → IsAccounted start last n (lookup key s.buckets)
  History-IsAccounted (starts s e) = rw e refl
  History-IsAccounted (asks {last} {n} {s} now scopes h k a) =
      asks-IsAccounted n (History-last h) k a (History-IsAccounted h) (admit-Decided now scopes s)
  History-IsAccounted (releases {s} scopes h) =
      rw (buckets-release scopes s) (History-IsAccounted h)

  accounted_bound :
      (start last n : ℕ) (o : Option BucketState)
      → IsAccounted start last n o
      → token * n ≤ token * pos_part l.burst + (last - start) * rate
  accounted_bound start last n none v = omega (arith, ap (λ (t : ℕ). token * t) v)
  accounted_bound start last n (some b) v = omega (arith, span start b.updated last rate v.0 v.1)

  -- The rate limit. Take a history of calls and releases in which time does not go back and every
  -- scope of the key has the same limits, from a store without a bucket of the key. The admissions
  -- with a token of the key are at most the burst and what the rate adds between the first call and
  -- the last.
  pub History-granted :
      {start last n : ℕ} {s : LimitStore}
      → History start last n s
      → token * n ≤ token * pos_part l.burst + (last - start) * pos_part l.requests_per_minute
  History-granted {start} {last} {n} {s} h =
      accounted_bound start last n (lookup key s.buckets) (History-IsAccounted h)
