-- ===== src/Admission/Balance.antt =====
-- What an admission takes from the limiter, over any wait.
use shepard.Base.{ℕ, ◌+◌, ◌≡◌, String, Option, none, some, List, [], ◌∷◌, All, arith}
use shepard.Queue.{Round, Admission, enter, wait, wait_loop}
use shepard.Limiter.{AdmissionScope, LimitStore, in_use, admit}
use shepard.Limiter.Decision.{Decided, admits, refuses, admit-Decided, Refusal-concurrent}
use shepard.Limiter.Holds.{demand, in_use-consume_all, in_use-concurrent}
use shepard.Admission.{Shared, try_admit, admit_with_queue}

abbrev pub in_use_of : String → Shared → ℕ
in_use_of key w = in_use key w.1.1

-- The units of a key that an admission holds.
abbrev pub taken : String → Option (List AdmissionScope) → ℕ
taken key none = 0
taken key (some scopes) = demand key scopes

-- What the other goroutines do between two rounds nets to nothing at the key.
abbrev pub IsNeutral : String → (Shared → Shared) → Type 0
IsNeutral key others = (w : Shared) → in_use_of key (others w) ≡ in_use_of key w

in_use-admit :
    (key : String) (now : ℕ) (scopes : List AdmissionScope) (s : LimitStore)
    → in_use key (admit now scopes s).1 ≡ in_use key s + taken key (admit now scopes s).0
in_use-admit key now scopes s = decided (admit-Decided now scopes s)
  where
    decided :
        {r : Option (List AdmissionScope) × LimitStore}
        → Decided now scopes s r
        → in_use key r.1 ≡ in_use key s + taken key r.0
    decided (admits ready) = in_use-consume_all key _ s scopes
    decided (refuses s' unready refusal) =
        omega (arith, in_use-concurrent key s s' (Refusal-concurrent refusal))

-- A request that still waits holds nothing.
abbrev pub taken_by : String → Option (Admission (List AdmissionScope)) → ℕ
taken_by key none = 0
taken_by key (some a) = taken key a.release

module _ (key : String) (scopes : List AdmissionScope) where
  wait_loop-in_use :
      (rounds : List (Round (ℕ × LimitStore))) (w : Shared)
      → All (λ round. IsNeutral key round.others) rounds
      → in_use_of key (wait_loop (try_admit scopes) rounds w).1
        ≡ in_use_of key w + taken_by key (wait_loop (try_admit scopes) rounds w).0
  unfolding wait_loop try_admit
  wait_loop-in_use [] w b = omega arith
  wait_loop-in_use (round ∷ rounds) w b =
      let u : Shared = round.others w in
      ground (
        arith,
        b.0 w,
        in_use-admit key u.1.0 scopes u.1.1,
        wait_loop-in_use rounds (u.0, (try_admit scopes u.1).1) b.1,
      )

  -- If between the rounds the other goroutines leave the slots of a key as they found them, then an
  -- admitted request adds what its scopes demand of the key, and a refused or a waiting one
  -- nothing.
  pub in_use-admit_with_queue :
      (rounds : List (Round (ℕ × LimitStore))) (w : Shared)
      → All (λ round. IsNeutral key round.others) rounds
      → in_use_of key (admit_with_queue scopes rounds w).1
        ≡ in_use_of key w + taken_by key (admit_with_queue scopes rounds w).0
  unfolding admit_with_queue wait enter try_admit
  in_use-admit_with_queue rounds w b = ground (
    arith,
    in_use-admit key w.1.0 scopes w.1.1,
    wait_loop-in_use rounds (record w.0 { waiting = w.0.waiting + 1 }, (try_admit scopes w.1).1) b,
  )
