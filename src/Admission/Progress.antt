-- ===== src/Admission/Progress.antt =====
-- A queued request is admitted as soon as its limits allow it.
use mathlib.Core.List.{Memᴰ}
use shepard.Base.{
  ℕ, ◌+◌, ◌≡◌, refl, true, Option, none, some, List, [], ◌∷◌, All, All-mem, All-of_mem, arith,
  length, ◌≤◌,
}
use shepard.Queue.{
  RequestQueue, Round, Admission, on_wake, first_try, enter_and_wait, ticked, enter, wait,
  wait_loop,
}
use shepard.Limiter.{AdmissionScope, LimitStore, admit}
use shepard.Limiter.Decision.{IsReady, admit-Decided, Decided, admits, refuses}
use shepard.Limiter.Rate.{Agrees}
use shepard.Admission.{Shared, try_admit, admit_with_queue}
use shepard.Admission.Due.{
  Elapses, last, more, IsDue, IsDue-refused, IsDue-ticked, IsPending, IsPending-IsDue,
}

-- The scopes of one call that have the same key have the same limits.
abbrev pub IsConsistent : List AdmissionScope → Type 0
IsConsistent scopes =
    (scope : AdmissionScope) → Memᴰ scope scopes → All (Agrees scope.key scope.limits) scopes

pub single-IsConsistent : (scope : AdmissionScope) → IsConsistent (scope ∷ [])
single-IsConsistent scope other (Memᴰ.head e) = ((λ k. rw e refl), tt)
single-IsConsistent scope other (Memᴰ.tail m) = elim m [ ]

-- The wait gave the request its slots.
abbrev pub IsAdmitted :
    List AdmissionScope → Option (Admission (List AdmissionScope)) × Shared → Type 0
IsAdmitted scopes (none, w) = ⊥
IsAdmitted scopes (some a, w) = a.release ≡ some scopes

module _ (scopes : List AdmissionScope) (consistent : IsConsistent scopes) where
  abbrev AreDue : ℕ → ℕ → LimitStore → Type 0
  AreDue t now s = (scope : AdmissionScope) → Memᴰ scope scopes → IsDue t now s scope

  -- An attempt to admit either admits, or leaves every scope as near to its time as before.
  data Tried (t now : ℕ) : Option (List AdmissionScope) × LimitStore → Type 0 where
    admitted : (s' : LimitStore) → Tried t now (some scopes, s')
    put_off : (s' : LimitStore) → (t ≡ 0 → ⊥) → AreDue t now s' → Tried t now (none, s')

  admit-Tried : (t now : ℕ) (s : LimitStore) → AreDue t now s → Tried t now (admit now scopes s)
  admit-Tried t now s due = decided (admit-Decided now scopes s)
    where
      ready_now : t ≡ 0 → now + t ≡ now
      ready_now e = omega (arith, e)

      decided :
          {r : Option (List AdmissionScope) × LimitStore} → Decided now scopes s r → Tried t now r
      decided (admits ready) = admitted _
      decided (refuses s' unready refusal) =
          put_off s'
            (λ e. unready (
              All-of_mem (IsReady now s) scopes
                (λ scope m. rw⁻¹ (ready_now e) (due scope m).ready)))
            (λ scope m. IsDue-refused scope (consistent scope m) refusal (due scope m))

  -- The ticker's round: admitted, or the loop goes on.
  on_wake-IsAdmitted :
      (t now : ℕ) (q : RequestQueue) (tried : Option (List AdmissionScope) × LimitStore)
      (again : Shared → Option (Admission (List AdmissionScope)) × Shared)
      → Tried t now tried
      → ((s' : LimitStore)
          → (t ≡ 0 → ⊥)
          → AreDue t now s'
          → IsAdmitted scopes (again (q, (now, s'))))
      → (s : LimitStore)
      → IsAdmitted scopes
          (on_wake (try_admit scopes) ticked q (now, s) (tried.0, (now, tried.1)) again)
  unfolding on_wake
  on_wake-IsAdmitted t now q tried again (admitted s') later s = refl
  on_wake-IsAdmitted t now q tried again (put_off s' h due) later s = later s' h due

  wait_loop-IsAdmitted :
      {t : ℕ} {rounds : List (Round (ℕ × LimitStore))} (w : Shared)
      → Elapses t rounds
      → AreDue t w.1.0 w.1.1
      → IsAdmitted scopes (wait_loop (try_admit scopes) rounds w)
  unfolding wait_loop try_admit
  wait_loop-IsAdmitted w (last {d} {round} {rounds} q) due =
      let u : Shared = round.others w in
      let end : d + 0 ≡ d = omega arith in
      rw q.wakes (
        on_wake-IsAdmitted 0 u.1.0 u.0 (admit u.1.0 scopes u.1.1) _
          (admit-Tried 0 u.1.0 u.1.1 (λ scope m. IsDue-ticked w scope q (rw end (due scope m))))
          (λ s' h due'. absurd (h refl)) u.1.1)
  wait_loop-IsAdmitted w (more {d} {t} {round} {rounds} q e) due =
      let u : Shared = round.others w in
      rw q.wakes (
        on_wake-IsAdmitted t u.1.0 u.0 (admit u.1.0 scopes u.1.1) _
          (admit-Tried t u.1.0 u.1.1 (λ scope m. IsDue-ticked w scope q (due scope m)))
          (λ s' h due'. wait_loop-IsAdmitted (u.0, (u.1.0, s')) e due') u.1.1)

-- As many refills lose less than a thousandth of a token to the rounding of `float64`.
abbrev pub max_refills : ℕ
max_refills = 1_000_000_000

-- A request that finds a place in the queue is admitted once the ticker has woken it, in at most a
-- billion rounds, over `t` nanoseconds, if each of its scopes has room, or no such limit, and has a
-- burst of a token at least and a rate that adds a token and a thousandth in that time, or no such
-- limit; if scopes with one key have the same limits, no bucket was refilled later than now, and
-- between the ticks the others take neither a token nor a slot. They may give slots back and enter
-- and leave the queue. The thousandth is for the rounding of `float64`, which is not modelled: a
-- billion refills lose less.
pub admit_with_queue-IsAdmitted :
    {t : ℕ} (scopes : List AdmissionScope) (rounds : List (Round (ℕ × LimitStore))) (w : Shared)
    → IsConsistent scopes
    → (enter w.0).1 ≡ true
    → length rounds ≤ max_refills
    → Elapses t rounds
    → All (IsPending t w.1.0 w.1.1) scopes
    → IsAdmitted scopes (admit_with_queue scopes rounds w)
unfolding admit_with_queue wait try_admit first_try enter_and_wait
admit_with_queue-IsAdmitted {t} scopes rounds w consistent place few e pending =
    after_first (admit-Tried scopes consistent t w.1.0 w.1.1 due)
  where
    due : (scope : AdmissionScope) → Memᴰ scope scopes → IsDue t w.1.0 w.1.1 scope
    due scope m = IsPending-IsDue scope (All-mem (IsPending t w.1.0 w.1.1) m pending)

    after_first :
        {tried : Option (List AdmissionScope) × LimitStore}
        → Tried scopes consistent t w.1.0 tried
        → IsAdmitted scopes (first_try (try_admit scopes) rounds w.0 (tried.0, (w.1.0, tried.1)))
    after_first (admitted s') = refl
    after_first (put_off s' h d) =
        rw (place, enter_and_wait)
          (wait_loop-IsAdmitted scopes consistent ((enter w.0).0, (w.1.0, s')) e d)
