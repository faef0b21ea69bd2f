-- ===== src/Queue/Sharing.antt =====
-- Any number of goroutines that share the queue: every interleaving of their calls.
use shepard.Base.{ℕ, suc, ◌+◌, ◌≤◌, ◌≡◌, true, false, List, [], ◌∷◌, ◌++◌, arith, ℤ, pos_part}
use shepard.Queue.{RequestQueue, enter, leave, set_max}

-- Where a goroutine stands: outside of the queue, or between its `enter` and its `leave`.
pub data Phase : Type 0 where
  outside queued : Phase

pub record System : Type 0 where
  pub queue : RequestQueue
  pub phases : List Phase

-- One call of one goroutine, or a reload that sets a size of at most `bound`.
pub data Step (bound : ℕ) : System → System → Type 0 where
  enters :
      (xs ys : List Phase) (q q' : RequestQueue)
      → enter q ≡ (q', true)
      → Step bound
          (record { queue = q; phases = xs ++ outside ∷ ys })
          (record { queue = q'; phases = xs ++ queued ∷ ys })
  is_refused :
      (xs ys : List Phase) (q q' : RequestQueue)
      → enter q ≡ (q', false)
      → Step bound
          (record { queue = q; phases = xs ++ outside ∷ ys })
          (record { queue = q'; phases = xs ++ outside ∷ ys })
  leaves :
      (xs ys : List Phase) (q : RequestQueue)
      → Step bound
          (record { queue = q; phases = xs ++ queued ∷ ys })
          (record { queue = leave q; phases = xs ++ outside ∷ ys })
  resizes :
      (q : RequestQueue) (phases : List Phase) (max : ℤ)
      → pos_part max ≤ bound
      → Step bound
          (record { queue = q; phases = phases })
          (record { queue = set_max max q; phases = phases })

pub data Reach (bound : ℕ) (s : System) : System → Type 0 where
  here : Reach bound s s
  next : {t u : System} → Reach bound s t → Step bound t u → Reach bound s u

abbrev pub count_queued : List Phase → ℕ
count_queued [] = 0
count_queued (outside ∷ ps) = count_queued ps
count_queued (queued ∷ ps) = suc (count_queued ps)

count_queued-append :
    (xs ys : List Phase) → count_queued (xs ++ ys) ≡ count_queued xs + count_queued ys
count_queued-append [] ys = omega arith
count_queued-append (outside ∷ xs) ys = count_queued-append xs ys
count_queued-append (queued ∷ xs) ys = omega (arith, count_queued-append xs ys)

-- `waiting` counts the queued goroutines, and both it and the size are within the bound.
pub record IsExact (bound : ℕ) (s : System) : Type 0 where
  pub exact : s.queue.waiting ≡ count_queued s.phases
  pub bounded : s.queue.waiting ≤ bound
  pub sized : pos_part s.queue.max ≤ bound

Step-IsExact : {bound : ℕ} {s t : System} → Step bound s t → IsExact bound s → IsExact bound t
unfolding enter leave set_max
Step-IsExact (enters xs ys q q' e) v =
    ground (arith, count_queued-append xs (outside ∷ ys), count_queued-append xs (queued ∷ ys))
Step-IsExact (is_refused xs ys q q' e) v = ground arith
Step-IsExact (leaves xs ys q) v =
    ground (arith, count_queued-append xs (outside ∷ ys), count_queued-append xs (queued ∷ ys))
Step-IsExact (resizes q phases max h) v = ground arith

-- Any number of goroutines enter and leave the queue in any order, and reloads set sizes of at most
-- a bound. If at first `waiting` counts the goroutines that are queued, and it and the size are
-- within the bound, then so it is in every state that they reach.
pub Reach-IsExact : {bound : ℕ} {s t : System} → IsExact bound s → Reach bound s t → IsExact bound t
Reach-IsExact v here = v
Reach-IsExact v (next r st) = Step-IsExact st (Reach-IsExact v r)
