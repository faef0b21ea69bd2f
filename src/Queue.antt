-- ===== src/Queue.antt =====
-- internal/gateway/queue.go: the bounded queue of requests that wait for admission.
pub mod Wait
pub mod Returns
pub mod Sharing
mod Tests
use shepard.Base.{
  ℕ, suc, ◌+◌, ◌-◌, Bool, true, false, ◌||◌, Option, none, some, List, [], ◌∷◌, ℤ, pos, is_pos, not,
  leb_ℤ, ltb, if◌then◌else◌,
}

-- `waiting` starts at 0 and is only decremented above 0; `max` is what the configuration says.
pub record RequestQueue : Type 0 where
  pub waiting : ℕ
  pub max : ℤ

unfoldable pub new_request_queue : ℤ → RequestQueue
new_request_queue max = record { waiting = 0; max = max }

unfoldable pub depth : RequestQueue → ℕ
depth q = q.waiting

unfoldable pub set_max : ℤ → RequestQueue → RequestQueue
set_max max q = record q { max = max }

unfoldable pub enter : RequestQueue → RequestQueue × Bool
enter q =
    if not (is_pos q.max) || leb_ℤ q.max (pos q.waiting)
    then (q, false)
    else (record q { waiting = q.waiting + 1 }, true)

unfoldable pub leave : RequestQueue → RequestQueue
leave q = if ltb 0 q.waiting then record q { waiting = q.waiting - 1 } else q

-- What `select` picks in a round of the waiting loop: the context's end, or the ticker.
pub data Wake : Type 0 where
  done ticked : Wake

-- `others` is what the other goroutines did to the queue and the store since the last round.
pub record Round (S : Type 0) : Type 0 where
  pub others : RequestQueue × S → RequestQueue × S
  pub wake : Wake

-- The results of `wait`: the release function, when the request is admitted, and whether it queued.
pub record Admission (R : Type 0) : Type 0 where
  pub release : Option R
  pub queued : Bool

module _ {R S : Type 0} (try : S → Option R × S) where
  -- A return from the loop runs the deferred `leave`.
  finish : Option R → RequestQueue × S → Option (Admission R) × (RequestQueue × S)
  finish r (q, s) = (some (record { release = r; queued = true }), (leave q, s))

  -- The two cases of `select`, over what a `try` on the ticker's case returns.
  unfoldable pub on_wake :
      Wake
      → RequestQueue
      → S
      → Option R × S
      → (RequestQueue × S → Option (Admission R) × (RequestQueue × S))
      → Option (Admission R) × (RequestQueue × S)
  unfolding finish
  on_wake done q s tried again = finish none (q, s)
  on_wake ticked q s (some r, s') again = finish (some r) (q, s')
  on_wake ticked q s (none, s') again = again (q, s')

  -- The `for` loop. With no round left the goroutine still waits, and there is no result yet.
  unfoldable pub wait_loop :
      List (Round S) → RequestQueue × S → Option (Admission R) × (RequestQueue × S)
  unfolding on_wake
  wait_loop [] w = (none, w)
  wait_loop (round ∷ rounds) w =
      let (q, s) = round.others w in on_wake round.wake q s (try s) (wait_loop rounds)

  unfoldable pub enter_and_wait :
      List (Round S) → RequestQueue × Bool → S → Option (Admission R) × (RequestQueue × S)
  unfolding wait_loop
  enter_and_wait rounds (q, true) s = wait_loop rounds (q, s)
  enter_and_wait rounds (q, false) s = (some (record { release = none; queued = false }), (q, s))

  -- The first try and `enter`, with no other goroutine between them.
  unfoldable pub first_try :
      List (Round S) → RequestQueue → Option R × S → Option (Admission R) × (RequestQueue × S)
  unfolding enter_and_wait
  first_try rounds q (some r, s) = (some (record { release = some r; queued = false }), (q, s))
  first_try rounds q (none, s) = enter_and_wait rounds (enter q) s

  unfoldable pub wait :
      List (Round S) → RequestQueue × S → Option (Admission R) × (RequestQueue × S)
  unfolding first_try
  wait rounds (q, s) = first_try rounds q (try s)
