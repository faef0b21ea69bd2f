-- ===== src/Admission.antt =====
-- internal/gateway/gateway.go, `admitWithQueue`: the queue waits for what the limiter admits.
pub mod Balance
pub mod Due
pub mod Progress
mod Tests
use shepard.Base.{ℕ, Option, List}
use shepard.Queue.{RequestQueue, Round, Admission, wait}
use shepard.Limiter.{AdmissionScope, LimitStore, admit}

-- What goroutines share: the queue, and the limiter with the clock that its lock's holder reads.
abbrev pub Shared : Type 0
Shared = RequestQueue × (ℕ × LimitStore)

unfoldable pub try_admit :
    List AdmissionScope → ℕ × LimitStore → Option (List AdmissionScope) × (ℕ × LimitStore)
try_admit scopes (now, s) = let (r, s') = admit now scopes s in (r, (now, s'))

-- `rounds` are the wake-ups of the wait, if it comes to one.
unfoldable pub admit_with_queue :
    List AdmissionScope
    → List (Round (ℕ × LimitStore))
    → Shared
    → Option (Admission (List AdmissionScope)) × Shared
unfolding try_admit
admit_with_queue scopes rounds w = wait (try_admit scopes) rounds w
