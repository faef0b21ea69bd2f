-- ===== src/Failover/Counters.antt =====
-- How often the target loop calls `doUpstreamRequest`, and what it counts.
use shepard.Base.{
  ℕ, ◌+◌, ◌*◌, ◌≤◌, ◌<◌, ◌≡◌, ◌⊎◌, refl, inl, inr, String, Option, none, some, ◌==◌, nat_eq, ◌&&◌,
  if◌then◌else◌, Bool-cases, ◌∙◌, List, [], ◌∷◌, ◌++◌, Map, length, arith, ap, ℤ,
}
use shepard.Config.Types.{ProviderConfig, ModelConfig, resolved_targets}
use shepard.Admission.{Shared}
use shepard.Payload.{Payload}
use shepard.Failover.Retry.{Attempt, Sent, Progress}
use shepard.Failover.Targets.{
  run_targets, Outcome, no_response, still_waiting, aborted, answered, attempt_count,
}
use shepard.Failover.Rules.{OutcomeSat}
use shepard.Failover.Order.{
  MayFollow, Ordered, quiet, sends, IsOrdered, IsRelayed, run_targets-Ordered,
}
use shepard.Failover.Tally.{IsTallied, run_targets-IsTallied}

-- How often a target's attempt is in the log.
abbrev pub times_sent : ℕ → ℕ → List Sent → ℕ
times_sent i j [] = 0
times_sent i j (s ∷ log) = (if s.target == i && s.attempt == j then 1 else 0) + times_sent i j log

times_sent-append :
    (i j : ℕ) (xs ys : List Sent)
    → times_sent i j (xs ++ ys) ≡ times_sent i j xs + times_sent i j ys
times_sent-append i j [] ys = omega arith
times_sent-append i j (s ∷ xs) ys = omega (arith, times_sent-append i j xs ys)

-- A target and an attempt that come after the last call.
abbrev IsAfter : Option Sent → ℕ → ℕ → Type 0
IsAfter none i j = Unit {0}
IsAfter (some s) i j = (s.target < i) ⊎ ((s.target ≡ i) × (s.attempt < j))

IsAfter-earlier :
    (last : Option Sent) (s : Sent) (i j : ℕ)
    → MayFollow last s
    → IsAfter (some s) i j
    → IsAfter last i j
IsAfter-earlier none s i j m a = tt
IsAfter-earlier (some prev) s i j (inl (same, next, transient)) (inl a) = inl (omega arith)
IsAfter-earlier (some prev) s i j (inl (same, next, transient)) (inr (b, c)) =
    inr (omega arith, omega arith)
IsAfter-earlier (some prev) s i j (inr (before, first)) (inl a) = inl (omega arith)
IsAfter-earlier (some prev) s i j (inr (before, first)) (inr (b, c)) = inl (omega arith)

MayFollow-IsAfter :
    (last : Option Sent) (s : Sent) → MayFollow last s → IsAfter last s.target s.attempt
MayFollow-IsAfter none s m = tt
MayFollow-IsAfter (some prev) s (inl (same, next, transient)) = inr (omega arith, omega arith)
MayFollow-IsAfter (some prev) s (inr (before, first)) = inl before

times_sent-last :
    (i j : ℕ) (log log' : List Sent) (s : Sent)
    → log' ≡ log ++ s ∷ []
    → times_sent i j log' ≡ times_sent i j log + times_sent i j (s ∷ [])
times_sent-last i j log log' s e = ap (times_sent i j) e ∙ times_sent-append i j log (s ∷ [])

-- What comes after the last call is not in the log.
Ordered-after :
    {last : Option Sent} {log : List Sent} (i j : ℕ)
    → Ordered last log
    → IsAfter last i j
    → times_sent i j log ≡ 0
Ordered-after i j quiet a = refl
Ordered-after i j (sends {last} {log} {log'} s o m e) a = ground (
  arith,
  a,
  times_sent-last i j log log' s e,
  Ordered-after i j o (IsAfter-earlier last s i j m a),
)

Ordered-once :
    {last : Option Sent} {log : List Sent} (i j : ℕ) → Ordered last log → times_sent i j log ≤ 1
Ordered-once i j quiet = omega arith
Ordered-once i j (sends {last} {log} {log'} s o m e) =
    elim (Bool-cases (s.target == i && s.attempt == j)) [
      | inl here ↦
          let target_is : s.target ≡ i = ground (arith, here) in
          let attempt_is : s.attempt ≡ j = ground (arith, here) in
          let after : IsAfter last i j =
            rw (← target_is, ← attempt_is) (MayFollow-IsAfter last s m) in
          ground (arith, times_sent-last i j log log' s e, Ordered-after i j o after)
      | inr elsewhere ↦
          ground (arith, elsewhere, times_sent-last i j log log' s e, Ordered-once i j o)
    ]

-- The counters say what the log holds: at most `bound` calls, none of them for a target and an
-- attempt that another one is for.
pub record IsCounted (bound : ℕ) (p : Progress) : Type 0 where
  pub tallied : IsTallied bound p
  pub once : (i j : ℕ) → times_sent i j p.sent ≤ 1

both-IsCounted :
    (bound : ℕ) (total : ℕ) (retries : ℤ) (o : Outcome)
    → OutcomeSat (IsTallied bound) (λ q _ _ _. IsTallied bound q) o
    → OutcomeSat IsOrdered
        (λ q s response held. Ordered (some s) q.sent × IsRelayed total retries s response)
        o
    → OutcomeSat (IsCounted bound) (λ q _ _ _. IsCounted bound q) o
both-IsCounted bound total retries (no_response p) t (last, o) = record {
  tallied = t;
  once = λ i j. Ordered-once i j o;
}
both-IsCounted bound total retries (still_waiting p) t (last, o) = record {
  tallied = t;
  once = λ i j. Ordered-once i j o;
}
both-IsCounted bound total retries (aborted p) t (last, o) = record {
  tallied = t;
  once = λ i j. Ordered-once i j o;
}
both-IsCounted bound total retries (answered p s response held) t (o, relayed) = record {
  tallied = t;
  once = λ i j. Ordered-once i j o;
}

-- However the providers answer, the loop calls `doUpstreamRequest` at most once for each target and
-- attempt, and in all at most once for each target and each of its attempts; the counter of
-- upstream requests is the number of these calls, and the counter of upstream errors is the number
-- of those that failed, be it before anything was sent.
pub run_targets-IsCounted :
    (marshal : Payload → Option String) (providers : Map ProviderConfig) (payload : Payload)
    (endpoint : String) (model : ModelConfig) (env : ℕ → ℕ → Attempt) (w : Shared)
    → let bound : ℕ = length (resolved_targets model) * attempt_count model.retries in
      OutcomeSat
        (IsCounted bound)
        (λ q _ _ _. IsCounted bound q)
        (run_targets marshal providers payload endpoint model env w)
run_targets-IsCounted marshal providers payload endpoint model env w =
    both-IsCounted (length (resolved_targets model) * attempt_count model.retries)
      (length (resolved_targets model)) model.retries _
      (run_targets-IsTallied marshal providers payload endpoint model env w)
      (run_targets-Ordered marshal providers payload endpoint model env w)
