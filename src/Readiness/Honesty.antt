-- ===== src/Readiness/Honesty.antt =====
-- What a health check is told: a result is ready exactly when it shows a provider as ok.
use mathlib.Core.Option
use shepard.Base.{
  ℕ, ◌≡◌, ◌↔◌, refl, sym, ap, some-inj, nat_eq, ◌∙◌, String, Bool, true, false, Option, none, some,
  List, [], ◌∷◌, Map, lookup, lookup-insert, ◌==◌, string_eq, eq_iff, All, arith, Bool-cases, inl,
  inr,
}
use shepard.Readiness.{
  ReadinessResult, ReadinessCache, clear, take_turn, finish_probe, clone_readiness_result,
  clone_status, check_readiness, status_text, is_fresh, no_result,
}
use shepard.Readiness.Results.{Distinct, any_ok, check_readiness_lem}
use shepard.Readiness.Handling.{
  Wakeup, Probing, Readied, run_probe, after_turn, cached_readiness, Health, report, answer_of,
  ready, context_done, probe_done, still_waiting, cancelled, readied, check_cancelled, health,
}

-- A result is ready exactly when it shows a provider as ok.
abbrev pub IsHonest : ReadinessResult → Type 0
IsHonest r = (r.ready ≡ true) ↔ ((name : String) × (lookup name r.status ≡ some "ok"))

lookup-clone_status :
    (key : String) (status : Map String) → lookup key (clone_status status) ≡ lookup key status
unfolding lookup
lookup-clone_status key [] = refl
lookup-clone_status key ((name, value) ∷ status) = ground (
  arith,
  eq_iff name key,
  lookup-insert name key value (clone_status status),
  lookup-clone_status key status,
)

clone-IsHonest : (r : ReadinessResult) → IsHonest r → IsHonest (clone_readiness_result r)
unfolding clone_readiness_result
clone-IsHonest r (to, from) = (
  (λ e. let (name, shown) = to e in (name, lookup-clone_status name r.status ∙ shown)),
  (λ (name, shown). from (name, sym (lookup-clone_status name r.status) ∙ shown)),
)

-- Some provider answers exactly when one of the answers is good.
any_ok-lookup :
    (items : Map Bool)
    → any_ok items ≡ true
    → Distinct items
    → (name : String) × (lookup name items ≡ some true)
unfolding lookup
any_ok-lookup [] e d = absurd (ground (arith, e))
any_ok-lookup ((name, true) ∷ items) e d = (name, ground (arith, eq_iff name name))
any_ok-lookup ((name, false) ∷ items) e d =
    let (other, found) = any_ok-lookup items e d.1 in
    (other, ground (arith, eq_iff name other, found, d.0))

lookup-any_ok :
    (items : Map Bool) (name : String) → lookup name items ≡ some true → any_ok items ≡ true
unfolding lookup
lookup-any_ok [] name e = absurd (ground (arith, e))
lookup-any_ok ((first, ok) ∷ items) name e = ground (arith, lookup-any_ok items name, e)

pub text_ok : (o : Option Bool) → Option.map status_text o ≡ some "ok" → o ≡ some true
text_ok none e = absurd (ground (arith, e))
text_ok (some true) e = refl
text_ok (some false) e =
    absurd (ground (arith, some-inj e, eq_iff (status_text false) (status_text true)))

pub check_readiness-IsHonest :
    (items : Map Bool) → Distinct items → IsHonest (check_readiness items)
check_readiness-IsHonest items d = (
  (λ e.
      let (name, found) = any_ok-lookup items (sym (check_readiness_lem items "" d).1 ∙ e) d in
      (name, (check_readiness_lem items name d).0 ∙ ap (Option.map status_text) found)),
  (λ (name, shown).
      let answered = sym (check_readiness_lem items name d).0 ∙ shown in
      (check_readiness_lem items name d).1
      ∙ lookup-any_ok items name (text_ok (lookup name items) answered)),
)

pub no_result-IsHonest : IsHonest no_result
unfolding lookup
no_result-IsHonest =
    ((λ e. absurd (ground (arith, e))), (λ (name, shown). absurd (ground (arith, shown))))

-- What others do keeps the cached result honest, as `finish_probe` and `clear` do.
abbrev pub KeepsHonest : (ReadinessCache → ReadinessCache) → Type 0
KeepsHonest f = (c : ReadinessCache) → IsHonest c.result → IsHonest (f c).result

pub clear-KeepsHonest : KeepsHonest clear
unfolding clear
clear-KeepsHonest c v = no_result-IsHonest

pub record IsSound (p : Probing) (wakeups : List Wakeup) : Type 0 where
  pub distinct : Distinct p.items
  pub during : KeepsHonest p.during
  pub others :
      All (λ w. elim w [ context_done ↦ Unit {0} | probe_done later f ↦ KeepsHonest f ]) wakeups

abbrev pub Tells : Readied × ReadinessCache → Type 0
Tells (still_waiting, c) = IsHonest c.result
Tells (cancelled, c) = IsHonest c.result
Tells (readied r, c) = IsHonest r × IsHonest c.result

finish_probe-IsHonest :
    (now ttl generation : ℕ) (r : ReadinessResult)
    → IsHonest r
    → KeepsHonest (finish_probe now ttl generation r)
unfolding finish_probe
finish_probe-IsHonest now ttl generation r v c w = elim (Bool-cases (generation == c.generation)) [
  | inl same ↦ rw same (clone-IsHonest r v)
  | inr other ↦ rw other w
]

after_turn-Tells :
    (p : Probing) (now : ℕ) (c : ReadinessCache) (waited : Readied × ReadinessCache)
    → Distinct p.items
    → KeepsHonest p.during
    → IsHonest c.result
    → Tells waited
    → Tells (after_turn p (take_turn now c) waited)
unfolding take_turn after_turn run_probe
after_turn-Tells p now c waited d keeps v w = elim (Bool-cases (is_fresh now c.expires)) [
  | inl fresh ↦ rw fresh (clone-IsHonest c.result v, v)
  | inr stale ↦ elim (Bool-cases c.inflight) [
    | inl busy ↦ rw (stale, busy) w
    | inr free ↦
        rw (stale, free)
          (
            check_readiness-IsHonest p.items d,
            finish_probe-IsHonest p.ended p.ttl c.generation (check_readiness p.items)
                (check_readiness-IsHonest p.items d) (p.during (record c { inflight = true }))
                (keeps (record c { inflight = true }) v),
          )
  ]
]

cached_readiness-Tells :
    (p : Probing) (now : ℕ) (wakeups : List Wakeup) (c : ReadinessCache)
    → IsSound p wakeups
    → IsHonest c.result
    → Tells (cached_readiness p now wakeups c)
unfolding cached_readiness
cached_readiness-Tells p now [] c s v = after_turn-Tells p now c _ s.distinct s.during v v
cached_readiness-Tells p now (context_done ∷ wakeups) c s v =
    after_turn-Tells p now c _ s.distinct s.during v v
cached_readiness-Tells p now (probe_done later others ∷ wakeups) c s v =
    after_turn-Tells p now c _ s.distinct s.during v (
      cached_readiness-Tells p later wakeups (others c)
        (record { distinct = s.distinct; during = s.during; others = s.others.1 }) (s.others.0 c v))

-- An answer says 200 exactly when it shows a provider as ok.
abbrev pub IsTold : Option Health → Type 0
IsTold none = Unit {0}
IsTold (some check_cancelled) = Unit {0}
IsTold (some (health code state providers)) =
    (code ≡ 200) ↔ ((name : String) × (lookup name providers ≡ some "ok"))

report-IsTold : (r : ReadinessResult) → IsHonest r → IsTold (some (report r))
unfolding report
report-IsTold r (to, from) = elim (Bool-cases r.ready) [
  | inl up ↦ rw up ((λ e. to up), (λ shown. refl))
  | inr down ↦
      rw down
        ((λ e. absurd (omega (arith, e))), (λ shown. absurd (ground (arith, down, from shown))))
]

Tells-IsTold : (x : Readied × ReadinessCache) → Tells x → IsTold (answer_of x.0)
Tells-IsTold (still_waiting, c) v = tt
Tells-IsTold (cancelled, c) v = tt
Tells-IsTold (readied r, c) v = report-IsTold r v.0

-- Take a health check whose own probe would have one answer from each provider, from a cache with
-- an honest result, while others keep the result honest. If it is answered with a result, the
-- status code is 200 exactly when the answer shows some provider as `ok`, whether the result was
-- cached, probed, or awaited from another request.
pub ready-IsTold :
    (p : Probing) (now : ℕ) (wakeups : List Wakeup) (c : ReadinessCache)
    → IsSound p wakeups
    → IsHonest c.result
    → IsTold (ready p now wakeups c)
unfolding ready
ready-IsTold p now wakeups c s v =
    Tells-IsTold (cached_readiness p now wakeups c) (cached_readiness-Tells p now wakeups c s v)
