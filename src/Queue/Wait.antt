-- ===== src/Queue/Wait.antt =====
-- What one call of `wait` returns, and what it leaves behind.
use shepard.Base.{
  ◌+◌, ◌-◌, ◌≡◌, refl, Bool, true, false, Option, none, some, List, [], ◌∷◌, All, arith, subst, ap,
  ◌∙◌,
}
use shepard.Queue.{
  RequestQueue, Round, Admission, Wake, done, ticked, enter, leave, wait, wait_loop, on_wake,
  first_try, enter_and_wait, finish,
}

module _ {R S : Type 0} (try : S → Option R × S) where
  -- The other goroutines queue and leave in pairs between two rounds.
  abbrev pub IsBalanced : Round S → Type 0
  IsBalanced round = (w : RequestQueue × S) → (round.others w).0.waiting ≡ w.0.waiting

  wait_loop-waiting :
      (rounds : List (Round S)) (q : RequestQueue) (s : S) (a : Admission R) (w : RequestQueue × S)
      → All IsBalanced rounds
      → wait_loop try rounds (q, s) ≡ (some a, w)
      → w.0.waiting ≡ q.waiting - 1
  unfolding wait_loop leave
  wait_loop-waiting [] q s a w b e = ground arith
  wait_loop-waiting (round ∷ rounds) q s a w b e = ground (
    arith,
    b.0 (q, s),
    wait_loop-waiting rounds (round.others (q, s)).0 (try (round.others (q, s)).1).1 a w b.1,
  )

  -- `wait` gives back the place that it took: if between two rounds the others leave as many
  -- waiting as they found, then a wait that returns leaves as many waiting as it found.
  pub wait-waiting :
      (rounds : List (Round S)) (q : RequestQueue) (s : S) (a : Admission R) (w : RequestQueue × S)
      → All IsBalanced rounds
      → wait try rounds (q, s) ≡ (some a, w)
      → w.0.waiting ≡ q.waiting
  unfolding wait enter
  wait-waiting rounds q s a w b e =
      ground
        (arith, wait_loop-waiting rounds (record q { waiting = q.waiting + 1 }) (try s).1 a w b)

  -- From a state of the loop, ticked rounds in which `try` admits nobody, and then a round: what is
  -- shared when the `select` of that round wakes, and how it wakes.
  pub data Reaches : List (Round S) → RequestQueue × S → RequestQueue × S → Wake → Type 0 where
    wakes :
        {rounds : List (Round S)} (round : Round S) (w : RequestQueue × S)
        → Reaches (round ∷ rounds) w (round.others w) round.wake
    waits_on :
        {rounds : List (Round S)} (round : Round S) (w : RequestQueue × S) (s' : S)
        {u : RequestQueue × S} {k : Wake}
        → round.wake ≡ ticked
        → try (round.others w).1 ≡ (none, s')
        → Reaches rounds ((round.others w).0, s') u k
        → Reaches (round ∷ rounds) w u k

  -- How a call of `wait` ends, from a queue and a store: with an admission at once; refused since
  -- the queue takes nobody; or after queueing, by the context's end in one of the rounds or by the
  -- `try` of a ticked one. A queued request leaves the queue as it is in that round.
  pub data Ends (rounds : List (Round S)) (q : RequestQueue) (s : S) (a : Admission R)
      (w : RequestQueue × S) : Type 0 where
    at_once :
        (r : R)
        → try s ≡ (some r, w.1)
        → w.0 ≡ q
        → a.release ≡ some r
        → a.queued ≡ false
        → Ends rounds q s a w
    refused :
        try s ≡ (none, w.1)
        → enter q ≡ (q, false)
        → w.0 ≡ q
        → a.release ≡ none
        → a.queued ≡ false
        → Ends rounds q s a w
    gave_up :
        (q' : RequestQueue) (s' : S) (u : RequestQueue × S)
        → try s ≡ (none, s')
        → enter q ≡ (q', true)
        → Reaches rounds (q', s') u done
        → w ≡ (leave u.0, u.1)
        → a.release ≡ none
        → a.queued ≡ true
        → Ends rounds q s a w
    admitted :
        (q' : RequestQueue) (s' : S) (u : RequestQueue × S) (r : R)
        → try s ≡ (none, s')
        → enter q ≡ (q', true)
        → Reaches rounds (q', s') u ticked
        → try u.1 ≡ (some r, w.1)
        → w.0 ≡ leave u.0
        → a.release ≡ some r
        → a.queued ≡ true
        → Ends rounds q s a w

  -- The part of `Ends` that the loop decides.
  data LoopEnds (rounds : List (Round S)) (v : RequestQueue × S)
      : Option (Admission R) × (RequestQueue × S) → Type 0 where
    still_waits : (w : RequestQueue × S) → LoopEnds rounds v (none, w)
    stops :
        (u : RequestQueue × S)
        → Reaches rounds v u done
        → LoopEnds rounds v (some (record { release = none; queued = true }), (leave u.0, u.1))
    gets :
        (u : RequestQueue × S) (r : R) (s' : S)
        → Reaches rounds v u ticked
        → try u.1 ≡ (some r, s')
        → LoopEnds rounds v (some (record { release = some r; queued = true }), (leave u.0, s'))

  LoopEnds-later :
      {rounds : List (Round S)} (round : Round S) (v : RequestQueue × S) (s' : S)
      (x : Option (Admission R) × (RequestQueue × S))
      → round.wake ≡ ticked
      → try (round.others v).1 ≡ (none, s')
      → LoopEnds rounds ((round.others v).0, s') x
      → LoopEnds (round ∷ rounds) v x
  LoopEnds-later round v s' _ e f (still_waits w) = still_waits w
  LoopEnds-later round v s' _ e f (stops u h) = stops u (waits_on round v s' e f h)
  LoopEnds-later round v s' _ e f (gets u r s'' h g) = gets u r s'' (waits_on round v s' e f h) g

  -- One round: the context ends, or the `try` of the ticker admits, or the loop goes on.
  on_wake-LoopEnds :
      {rounds : List (Round S)} (round : Round S) (v : RequestQueue × S) (k : Wake)
      (tried : Option R × S) (again : RequestQueue × S → Option (Admission R) × (RequestQueue × S))
      → round.wake ≡ k
      → try (round.others v).1 ≡ tried
      → ((u : RequestQueue × S) → LoopEnds rounds u (again u))
      → LoopEnds
          (round ∷ rounds)
          v
          (on_wake try k (round.others v).0 (round.others v).1 tried again)
  unfolding on_wake finish
  on_wake-LoopEnds round v done tried again e f h =
      stops (round.others v) (subst (Reaches _ v (round.others v)) e (wakes round v))
  on_wake-LoopEnds round v ticked (some r, s') again e f h =
      gets (round.others v) r s' (subst (Reaches _ v (round.others v)) e (wakes round v)) f
  on_wake-LoopEnds round v ticked (none, s') again e f h =
      LoopEnds-later round v s' _ e f (h ((round.others v).0, s'))

  wait_loop-LoopEnds :
      (rounds : List (Round S)) (v : RequestQueue × S) → LoopEnds rounds v (wait_loop try rounds v)
  unfolding wait_loop
  wait_loop-LoopEnds [] v = still_waits v
  wait_loop-LoopEnds (round ∷ rounds) v =
      on_wake-LoopEnds round v round.wake (try (round.others v).1) (wait_loop try rounds) refl refl
        (λ u. wait_loop-LoopEnds rounds u)

  -- The result of a call, over what the loop returns.
  ResultSat :
      Option (Admission R) × (RequestQueue × S) → (Admission R → RequestQueue × S → Type 0) → Type 0
  ResultSat (none, w) P = Unit {0}
  ResultSat (some a, w) P = P a w

  LoopEnds-Ends :
      (rounds : List (Round S)) (q q' : RequestQueue) (s s' : S)
      (x : Option (Admission R) × (RequestQueue × S))
      → try s ≡ (none, s')
      → enter q ≡ (q', true)
      → LoopEnds rounds (q', s') x
      → ResultSat x (Ends rounds q s)
  unfolding ResultSat
  LoopEnds-Ends rounds q q' s s' _ t e (still_waits w) = tt
  LoopEnds-Ends rounds q q' s s' _ t e (stops u h) = gave_up q' s' u t e h refl refl refl
  LoopEnds-Ends rounds q q' s s' _ t e (gets u r s'' h f) =
      admitted q' s' u r t e h f refl refl refl

  refused_enter : (q q' : RequestQueue) → enter q ≡ (q', false) → q' ≡ q
  unfolding enter
  refused_enter q q' e = ground (arith, e)

  enter_and_wait-Ends :
      (rounds : List (Round S)) (q : RequestQueue) (s s' : S) (entered : RequestQueue × Bool)
      → try s ≡ (none, s')
      → enter q ≡ entered
      → ResultSat (enter_and_wait try rounds entered s') (Ends rounds q s)
  unfolding ResultSat enter_and_wait
  enter_and_wait-Ends rounds q s s' (q', true) t e =
      LoopEnds-Ends rounds q q' s s' _ t e (wait_loop-LoopEnds rounds (q', s'))
  enter_and_wait-Ends rounds q s s' (q', false) t e =
      let same : q' ≡ q = refused_enter q q' e in
      refused t (e ∙ ap (λ x. (x, false)) same) same refl refl

  first_try-Ends :
      (rounds : List (Round S)) (q : RequestQueue) (s : S) (tried : Option R × S)
      → try s ≡ tried
      → ResultSat (first_try try rounds q tried) (Ends rounds q s)
  unfolding ResultSat first_try
  first_try-Ends rounds q s (some r, s') t = at_once r t refl refl refl
  first_try-Ends rounds q s (none, s') t = enter_and_wait-Ends rounds q s s' (enter q) t refl

  -- A wait that returns, returns in one of its ways: admitted at once, with the queue as it was;
  -- refused at once, with the queue as it was, since the queue takes nobody; or it was queued and
  -- then, after ticked rounds whose attempts admitted nobody, either the context ended, in a round
  -- that wakes for it, or the attempt of a ticked round admitted it. Queued, it leaves the queue as
  -- that round found it, less its own place.
  pub wait-Ends :
      (rounds : List (Round S)) (q : RequestQueue) (s : S) (a : Admission R) (w : RequestQueue × S)
      → wait try rounds (q, s) ≡ (some a, w)
      → Ends rounds q s a w
  unfolding wait ResultSat
  wait-Ends rounds q s a w e =
      subst (λ x. ResultSat x (Ends rounds q s)) e (first_try-Ends rounds q s (try s) refl)
