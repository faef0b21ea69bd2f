-- ===== src/Admission/Tests.antt =====
-- A request that waits for a token, at small numbers.
use shepard.Base.{List, ℕ, ◌+◌, ◌≡◌, refl, inr, true, [], ◌∷◌, All, arith, pos, lookup, string_eq}
use shepard.Config.Samples.{limited}
use shepard.Queue.{Round, ticked, enter}
use shepard.Limiter.{AdmissionScope, LimitStore, in_use}
use shepard.Admission.{Shared, admit_with_queue}
use shepard.Admission.Due.{IsQuietTick, last, more, IsPending}
use shepard.Admission.Progress.{single-IsConsistent, IsAdmitted, admit_with_queue-IsAdmitted}

abbrev paced : AdmissionScope
paced = record { key = "client:ip:1"; limits = limited }

-- One place in the queue, and no token left.
abbrev drained : Shared
drained = (
  record { waiting = 0; max = pos 1 },
  (
    5,
    record { buckets = ("client:ip:1", record { tokens = 0; updated = 5 }) ∷ []; concurrent = [] },
  ),
)

-- Half a second passes.
abbrev half_second : Round (ℕ × LimitStore)
half_second = record { others = λ w. (w.0, (w.1.0 + 500_000_000, w.1.1)); wake = ticked }

abbrev three_ticks : List (Round (ℕ × LimitStore))
three_ticks = half_second ∷ half_second ∷ half_second ∷ []

half_second-IsQuietTick : IsQuietTick 500_000_000 half_second
half_second-IsQuietTick = record {
  wakes = refl;
  time = λ w. refl;
  buckets = λ w. refl;
  frees = λ w key. omega arith;
}

paced-IsPending : All (IsPending 1_500_000_000 5 drained.1.1) (paced ∷ [])
unfolding in_use lookup
paced-IsPending = (
  record {
    has_room = inr (omega arith);
    fills = inr (omega arith, omega arith);
    past = omega arith;
  },
  tt,
)

has_place : (enter drained.0).1 ≡ true
unfolding enter
has_place = refl

admit_with_queue-IsAdmitted_example :
    IsAdmitted (paced ∷ []) (admit_with_queue (paced ∷ []) three_ticks drained)
admit_with_queue-IsAdmitted_example =
    admit_with_queue-IsAdmitted (paced ∷ []) three_ticks drained (single-IsConsistent paced)
      has_place (omega arith)
      (more half_second-IsQuietTick (more half_second-IsQuietTick (last half_second-IsQuietTick)))
      paced-IsPending
