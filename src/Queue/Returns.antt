-- ===== src/Queue/Returns.antt =====
-- A call of `wait` whose context ends returns.
use shepard.Base.{◌≡◌, ◌⊎◌, inl, inr, refl, Bool, true, false, Option, none, some, List, [], ◌∷◌}
use shepard.Queue.{
  RequestQueue, Round, Admission, Wake, done, ticked, enter, wait, wait_loop, on_wake, first_try,
  enter_and_wait, finish,
}

-- A round in which the context is done.
abbrev pub HasEnd : {S : Type 0} → List (Round S) → Type 0
HasEnd [] = ⊥
HasEnd (round ∷ rounds) = (round.wake ≡ done) ⊎ HasEnd rounds

module _ {R S : Type 0} (try : S → Option R × S) where
  module _ (P : Option (Admission R) × (RequestQueue × S) → Type 0) where
    -- One round of the loop: the context ends, the ticker's `try` admits, or the loop goes on.
    on_wake_rule :
        (k : Wake) (q : RequestQueue) (s : S) (tried : Option R × S)
        (again : RequestQueue × S → Option (Admission R) × (RequestQueue × S))
        → P (finish try none (q, s))
        → ((r : R) (s' : S) → tried ≡ (some r, s') → P (finish try (some r) (q, s')))
        → ((u : RequestQueue × S) → P (again u))
        → P (on_wake try k q s tried again)
    unfolding on_wake
    on_wake_rule done q s tried again stopped admitted later = stopped
    on_wake_rule ticked q s (some r, s') again stopped admitted later = admitted r s' refl
    on_wake_rule ticked q s (none, s') again stopped admitted later = later (q, s')

  wait_loop-returns :
      (rounds : List (Round S)) (w : RequestQueue × S)
      → HasEnd rounds
      → (a : Admission R) × ((wait_loop try rounds w).0 ≡ some a)
  unfolding wait_loop finish
  wait_loop-returns [] w h = absurd h
  wait_loop-returns (round ∷ rounds) w (inl e) =
      rw e (record { release = none; queued = true }, refl)
  wait_loop-returns (round ∷ rounds) w (inr h) =
      on_wake_rule (λ x. (a : Admission R) × (x.0 ≡ some a)) round.wake (round.others w).0
        (round.others w).1 (try (round.others w).1) (wait_loop try rounds)
        (record { release = none; queued = true }, refl)
        (λ r s' e. (record { release = some r; queued = true }, refl))
        (λ u. wait_loop-returns rounds u h)

  -- A wait whose context ends in one of its rounds returns.
  pub wait-returns :
      (rounds : List (Round S)) (q : RequestQueue) (s : S)
      → HasEnd rounds
      → (a : Admission R) × ((wait try rounds (q, s)).0 ≡ some a)
  unfolding wait
  wait-returns rounds q s h = after_first (try s) (enter q)
    where
      after_enter :
          (t : S) (entered : RequestQueue × Bool)
          → (a : Admission R) × ((enter_and_wait try rounds entered t).0 ≡ some a)
      after_enter t (q', true) = wait_loop-returns rounds (q', t) h
      after_enter t (q', false) = (record { release = none; queued = false }, refl)

      after_first :
          (tried : Option R × S) (entered : RequestQueue × Bool)
          → (a : Admission R) × ((first_try try rounds q tried).0 ≡ some a)
      after_first (some r, t) entered = (record { release = some r; queued = false }, refl)
      after_first (none, t) entered = after_enter t (enter q)
