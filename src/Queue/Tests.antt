-- ===== src/Queue/Tests.antt =====
-- Runs of the queue, and the queue's theorems at small inputs.
use shepard.Base.{ℕ, ◌+◌, ◌≡◌, refl, true, false, Option, none, some, [], ◌∷◌, pos, arith}
use shepard.Queue.{RequestQueue, Round, ticked, enter, leave, wait}
use shepard.Queue.Wait.{wait-Ends, Ends}
use shepard.Queue.Sharing.{outside, queued, System, enters, here, next, IsExact, Reach-IsExact}

-- Admits once the store holds a unit.
abbrev take_one : ℕ → Option ℕ × ℕ
take_one s = elim s [ ℕ.zero ↦ (none, 0) | ℕ.suc n ↦ (some 7, n) ]

abbrev refill_one : Round ℕ
refill_one = record { others = λ w. (w.0, w.1 + 1); wake = ticked }

abbrev one_place : RequestQueue
one_place = record { waiting = 0; max = pos 1 }

abbrev no_place : RequestQueue
no_place = record { waiting = 1; max = pos 1 }

-- A request that finds no unit queues, and is admitted at the next tick.
wait_admitted :
    wait take_one (refill_one ∷ []) (one_place, 0)
    ≡ (some (record { release = some 7; queued = true }), (one_place, 0))
unfolding wait enter leave
wait_admitted = refl

wait_refused :
    wait take_one (refill_one ∷ []) (no_place, 0)
    ≡ (some (record { release = none; queued = false }), (no_place, 0))
unfolding wait enter
wait_refused = refl

wait-Ends_example :
    Ends take_one
      (refill_one ∷ [])
      one_place
      0
      (record { release = some 7; queued = true })
      (one_place, 0)
wait-Ends_example =
    wait-Ends take_one (refill_one ∷ []) one_place 0 (record { release = some 7; queued = true })
      (one_place, 0) wait_admitted

abbrev two_outside : System
two_outside = record { queue = one_place; phases = outside ∷ outside ∷ [] }

abbrev first_queued : System
first_queued = record {
  queue = record { waiting = 1; max = pos 1 };
  phases = queued ∷ outside ∷ [];
}

first_enters : enter one_place ≡ (first_queued.queue, true)
unfolding enter
first_enters = refl

Reach-IsExact_example : IsExact 1 first_queued
Reach-IsExact_example =
    Reach-IsExact {s = two_outside} (omega arith)
      (next here (enters [] (outside ∷ []) one_place first_queued.queue first_enters))
