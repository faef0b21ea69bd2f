-- ===== src/Admission/Due.antt =====
-- When a scope is ready for a request that waits, and what does not put that time off.
use shepard.Base.{
  ℕ, ◌+◌, ◌-◌, ◌≤◌, ◌<◌, ◌≡◌, ◌⊎◌, inl, inr, false, Option, none, some, List, ◌∷◌, String, lookup,
  is_pos, pos_part, All, arith, ◌*◌, ap,
}
use shepard.Config.Types.{Limits}
use shepard.Queue.{Round, ticked}
use shepard.Limiter.{AdmissionScope, BucketState, LimitStore, token, refill, in_use}
use shepard.Limiter.Decision.{IsReady, Refusal, Refusal-concurrent}
use shepard.Limiter.Rate.{Agrees, lookup-refused, span}
use shepard.Limiter.Holds.{in_use-concurrent}
use shepard.Admission.{Shared}

-- A round of the ticker after `d` nanoseconds, in which the other goroutines took no token and no
-- slot. They may have given slots back, and have entered and left the queue.
pub record IsQuietTick (d : ℕ) (round : Round (ℕ × LimitStore)) : Type 0 where
  pub wakes : round.wake ≡ ticked
  pub time : (w : Shared) → (round.others w).1.0 ≡ w.1.0 + d
  pub buckets : (w : Shared) → (round.others w).1.1.buckets ≡ w.1.1.buckets
  pub frees : (w : Shared) (key : String) → in_use key (round.others w).1.1 ≤ in_use key w.1.1

-- Rounds that begin with ticks over `t` nanoseconds.
pub data Elapses : ℕ → List (Round (ℕ × LimitStore)) → Type 0 where
  last :
      {d : ℕ} {round : Round (ℕ × LimitStore)} {rounds : List (Round (ℕ × LimitStore))}
      → IsQuietTick d round
      → Elapses d (round ∷ rounds)
  more :
      {d t : ℕ} {round : Round (ℕ × LimitStore)} {rounds : List (Round (ℕ × LimitStore))}
      → IsQuietTick d round
      → Elapses t rounds
      → Elapses (d + t) (round ∷ rounds)

-- No bucket was refilled later than now.
abbrev pub IsPast : ℕ → Option BucketState → Type 0
IsPast now none = Unit {0}
IsPast now (some b) = b.updated ≤ now

-- A scope that is ready in `t` nanoseconds, if nobody takes from it.
pub record IsDue (t now : ℕ) (s : LimitStore) (scope : AdmissionScope) : Type 0 where
  pub ready : IsReady (now + t) s scope
  pub past : IsPast now (lookup scope.key s.buckets)

refill_again :
    (now t : ℕ) (l : Limits) (o : Option BucketState)
    → IsPast now o
    → (refill (now + t) l (some (refill now l o))).tokens ≡ (refill (now + t) l o).tokens
unfolding refill
refill_again now t l none p = omega arith
refill_again now t l (some b) p =
    omega (arith, span b.updated now (now + t) (pos_part l.requests_per_minute) p (omega arith))

updated-refill : (now : ℕ) (l : Limits) (o : Option BucketState) → (refill now l o).updated ≤ now
unfolding refill
updated-refill now l none = omega arith
updated-refill now l (some b) = omega arith

IsPast-later : (now d : ℕ) (o : Option BucketState) → IsPast now o → IsPast (now + d) o
IsPast-later now d none p = tt
IsPast-later now d (some b) p = omega (arith, p)

-- A refusal does not put off the time at which a scope is ready.
pub IsDue-refused :
    {t now : ℕ} {s : LimitStore} {scopes : List AdmissionScope} {s' : LimitStore}
    (scope : AdmissionScope)
    → All (Agrees scope.key scope.limits) scopes
    → Refusal now s scopes s'
    → IsDue t now s scope
    → IsDue t now s' scope
IsDue-refused {t} {now} {s} {scopes} {s'} scope a refusal due = record {
  ready = record {
    has_room =
        rw (in_use-concurrent scope.key s s' (Refusal-concurrent refusal)) due.ready.has_room;
    has_token = elim (lookup-refused scope.key scope.limits a refusal) [
      | inl same ↦ rw same due.ready.has_token
      | inr fresh ↦ rw (fresh, again) due.ready.has_token
    ];
  };
  past = elim (lookup-refused scope.key scope.limits a refusal) [
    | inl same ↦ rw same due.past
    | inr fresh ↦ rw fresh (updated-refill now scope.limits (lookup scope.key s.buckets))
  ];
}
  where
    again :
        (refill
          (now + t)
          scope.limits
          (some (refill now scope.limits (lookup scope.key s.buckets)))).tokens
        ≡ (refill (now + t) scope.limits (lookup scope.key s.buckets)).tokens
    again = refill_again now t scope.limits (lookup scope.key s.buckets) due.past

-- Neither does a quiet tick.
pub IsDue-ticked :
    {d t : ℕ} {round : Round (ℕ × LimitStore)} (w : Shared) (scope : AdmissionScope)
    → IsQuietTick d round
    → IsDue (d + t) w.1.0 w.1.1 scope
    → IsDue t (round.others w).1.0 (round.others w).1.1 scope
IsDue-ticked {d} {t} {round} w scope q due =
    let same : w.1.0 + d + t ≡ w.1.0 + (d + t) = omega arith in
    record {
      ready = record {
        has_room = elim due.ready.has_room [
          | inl unlimited ↦ inl unlimited
          | inr room ↦ inr (omega (arith, room, q.frees w scope.key))
        ];
        has_token = rw (q.time w, q.buckets w, same) due.ready.has_token;
      };
      past =
          rw (q.time w, q.buckets w)
            (IsPast-later w.1.0 d (lookup scope.key w.1.1.buckets) due.past);
    }

-- A thousandth of a token.
abbrev pub margin : ℕ
margin = 60_000_000_000

-- What a scope needs to be ready within `t` nanoseconds: room now, a burst of a token at least, and a
-- rate that adds a token and a thousandth in that time. The source adds with `float64`, which may
-- lose some units of 2 ^ -52 at each refill that leaves less than a token: the thousandth is more
-- than a billion of them lose.
pub record IsPending (t now : ℕ) (s : LimitStore) (scope : AdmissionScope) : Type 0 where
  pub has_room :
      (is_pos scope.limits.max_concurrent ≡ false)
      ⊎ (in_use scope.key s < pos_part scope.limits.max_concurrent)
  pub fills :
      (is_pos scope.limits.requests_per_minute ≡ false)
      ⊎ ((1 ≤ pos_part scope.limits.burst)
          × (token + margin ≤ t * pos_part scope.limits.requests_per_minute))
  pub past : IsPast now (lookup scope.key s.buckets)

tokens-refill :
    (now t : ℕ) (l : Limits) (o : Option BucketState)
    → IsPast now o
    → 1 ≤ pos_part l.burst
    → token + margin ≤ t * pos_part l.requests_per_minute
    → token ≤ (refill (now + t) l o).tokens
unfolding refill
tokens-refill now t l none p b h = omega (arith, b)
tokens-refill now t l (some b) p h k =
    let r : ℕ = pos_part l.requests_per_minute in
    let again : now + t - now ≡ t = omega arith in
    omega (arith, h, k, span b.updated now (now + t) r p (omega arith), ap (λ (n : ℕ). n * r) again)

pub IsPending-IsDue :
    {t now : ℕ} {s : LimitStore} (scope : AdmissionScope)
    → IsPending t now s scope
    → IsDue t now s scope
IsPending-IsDue {t} {now} {s} scope p = record {
  ready = record {
    has_room = p.has_room;
    has_token = elim p.fills [
      | inl unlimited ↦ inl unlimited
      | inr (burst, rate) ↦
          inr (tokens-refill now t scope.limits (lookup scope.key s.buckets) p.past burst rate)
    ];
  };
  past = p.past;
}
