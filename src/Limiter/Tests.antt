-- ===== src/Limiter/Tests.antt =====
-- Runs of the limiter, and its theorems at small inputs.
use shepard.Base.{
  ℕ, ◌+◌, ◌-◌, ◌*◌, ◌≡◌, ◌≤◌, ◌↔◌, refl, String, none, some, List, [], ◌∷◌, All, pos, pos_part,
  arith, lookup, insert, erase, string_eq, eq_iff,
}
use shepard.Config.Types.{Limits}
use shepard.Limiter.{AdmissionScope, LimitStore, new_limit_store, token, admit, release, in_use}
use shepard.Limiter.Decision.{IsReady, Refusal, admit-IsReady, admit_refused}
use shepard.Limiter.Holds.{held}
use shepard.Limiter.Traffic.{
  Traffic, idle, Reach, here, next, asks, releases, Reach-in_use, Reach-concurrent_empty,
}
use shepard.Limiter.Capacity.{IsCall, Reach-held_le}
use shepard.Limiter.Rate.{History, starts, asks, History-granted}

abbrev one_slot : Limits
one_slot = record { requests_per_minute = pos 0; burst = pos 0; max_concurrent = pos 1 }

-- One request in a minute.
abbrev slow : Limits
slow = record { requests_per_minute = pos 1000; burst = pos 1; max_concurrent = pos 0 }

abbrev slot : AdmissionScope
slot = record { key = "ingress"; limits = one_slot }

abbrev paced : AdmissionScope
paced = record { key = "client:a"; limits = slow }

abbrev taken : LimitStore
taken = record { buckets = []; concurrent = ("ingress", 1) ∷ [] }

admit_first : admit 5 (slot ∷ []) new_limit_store ≡ (some (slot ∷ []), taken)
unfolding admit new_limit_store lookup insert
admit_first = refl

-- The slot is in use, so that neither scope gives anything.
admit_second : admit 6 (paced ∷ slot ∷ []) taken ≡ (none, taken)
unfolding admit lookup insert
admit_second = refl

release_first : release (slot ∷ []) taken ≡ new_limit_store
unfolding release new_limit_store lookup insert erase
release_first = refl

admit-IsReady_example :
    ((admit 6 (paced ∷ slot ∷ []) new_limit_store).0 ≡ some (paced ∷ slot ∷ []))
    ↔ All (IsReady 6 new_limit_store) (paced ∷ slot ∷ [])
admit-IsReady_example = admit-IsReady 6 (paced ∷ slot ∷ []) new_limit_store

second_refused : (admit 6 (paced ∷ slot ∷ []) taken).0 ≡ none
unfolding admit lookup insert
second_refused = refl

admit_refused_example :
    Refusal 6 taken (paced ∷ slot ∷ []) (admit 6 (paced ∷ slot ∷ []) taken).1
    × ((admit 6 (paced ∷ slot ∷ []) taken).1.concurrent ≡ taken.concurrent)
admit_refused_example = admit_refused 6 (paced ∷ slot ∷ []) taken second_refused

-- One request in flight.
abbrev busy : Traffic
busy = record { store = taken; holds = (slot ∷ []) ∷ [] }

abbrev AnyCall : List AdmissionScope → Type 0
AnyCall scopes = Unit

busy_reached :
    (Allowed : List AdmissionScope → Type 0) → Allowed (slot ∷ []) → Reach Allowed idle busy
unfolding admit new_limit_store lookup insert
busy_reached Allowed allowed = next here (asks idle 5 (slot ∷ []) allowed)

Reach-in_use_example : in_use "ingress" busy.store ≡ held "ingress" busy.holds
Reach-in_use_example = Reach-in_use AnyCall (busy_reached AnyCall tt) "ingress"

abbrev freed : Traffic
freed = record { store = release (slot ∷ []) taken; holds = [] }

Reach-concurrent_empty_example : freed.store.concurrent ≡ []
Reach-concurrent_empty_example =
    Reach-concurrent_empty AnyCall
      (next (busy_reached AnyCall tt) (releases taken [] [] (slot ∷ []))) refl

abbrev single : String → ℕ
single key = 1

slot-IsCall : IsCall single (slot ∷ [])
slot-IsCall = record {
  capped = omega arith;
  distinct = λ key. ground (arith, eq_iff "ingress" key);
}

Reach-held_le_example : held "ingress" busy.holds ≤ single "ingress"
Reach-held_le_example = Reach-held_le single "ingress" (busy_reached (IsCall single) slot-IsCall)

abbrev paced_once : LimitStore
paced_once = (admit 5 (paced ∷ []) new_limit_store).1

paced-History : History "client:a" slow 5 5 1 paced_once
unfolding admit new_limit_store lookup insert
paced-History = asks 5 (paced ∷ []) (starts new_limit_store refl) (omega arith) ((λ e. refl), tt)

History-granted_example :
    token * 1 ≤ token * pos_part slow.burst + (5 - 5) * pos_part slow.requests_per_minute
History-granted_example = History-granted "client:a" slow paced-History
