-- ===== src/Readiness/Freshness.antt =====
-- Any number of goroutines that ask for the readiness, and reloads that clear it.
use shepard.Base.{
  ℕ, ◌⊎◌, ◌+◌, ◌≤◌, ◌<◌, ◌≡◌, refl, ap, ◌∙◌, Bool, true, false, none, List, [], ◌∷◌, ◌++◌, All,
  length, length-append, arith, ◌==◌, nat_eq, if◌then◌else◌, Bool-cases, inl, inr,
}
use shepard.Readiness.{
  is_fresh, ReadinessResult, ReadinessCache, new_readiness_cache, clear, take_turn, finish_probe,
  probes, uint64_size,
}

-- A probe in flight: the generation that it captured, and how many clears came before it.
pub record Probe : Type 0 where
  pub generation : ℕ
  pub begun : ℕ

-- The cache, the probes in flight, the number of clears, and how many of them came before the probe
-- whose result is cached.
pub record System : Type 0 where
  pub cache : ReadinessCache
  pub running : List Probe
  pub clears : ℕ
  pub source : ℕ

pub data Step : System → System → Type 0 where
  -- A turn that finds a cached result or waits leaves the cache as it is, and needs no step.
  begins :
      (s : System) (now generation : ℕ) (c : ReadinessCache)
      → take_turn now s.cache ≡ (probes generation, c)
      → Step s (record s {
        cache = c;
        running = record { generation = generation; begun = s.clears } ∷ s.running;
      })
  ends :
      (s : System) (before : List Probe) (p : Probe) (after : List Probe) (now ttl : ℕ)
      (result : ReadinessResult)
      → s.running ≡ before ++ p ∷ after
      → Step s (record s {
        cache = finish_probe now ttl p.generation result s.cache;
        running = before ++ after;
        source = if p.generation == s.cache.generation then p.begun else s.source;
      })
  reloads : (s : System) → Step s (record s { cache = clear s.cache; clears = s.clears + 1 })

pub data Reach (s : System) : System → Type 0 where
  here : Reach s s
  next : {t u : System} → Reach s t → Step t u → Reach s u

abbrev pub idle : System
idle = record { cache = new_readiness_cache; running = []; clears = 0; source = 0 }

abbrev count : Bool → ℕ
count true = 1
count false = 0

-- A probe in flight is the one that the cache knows of, so there is at most one. Below 2^64 clears,
-- what is cached was probed after the last of them.
pub record IsFresh (s : System) : Type 0 where
  pub single : length s.running ≡ count s.cache.inflight
  pub counted : s.clears < uint64_size → s.cache.generation ≡ s.clears
  pub captured : All (λ p. (s.clears < uint64_size) → p.generation ≡ p.begun) s.running
  pub fresh : s.clears < uint64_size → (s.cache.expires ≡ none) ⊎ (s.source ≡ s.clears)

take_turn-probes :
    (now generation : ℕ) (c c' : ReadinessCache)
    → take_turn now c ≡ (probes generation, c')
    → (c.inflight ≡ false) × (generation ≡ c.generation) × (c' ≡ record c { inflight = true })
unfolding take_turn
take_turn-probes now generation c c' e = elim (Bool-cases (is_fresh now c.expires)) [
  | inl fresh ↦ absurd (ground arith)
  | inr stale ↦ elim (Bool-cases c.inflight) [
    | inl busy ↦ absurd (ground arith)
    | inr free ↦ (free, ground arith, ground arith)
  ]
]

All-map {ℓ κ} :
    {T : Type ℓ} {P Q : T → Type κ} (xs : List T) → ((x : T) → P x → Q x) → All P xs → All Q xs
All-map [] f h = tt
All-map (x ∷ xs) f h = (f x h.0, All-map xs f h.1)

All-middle {ℓ κ} :
    {T : Type ℓ} (P : T → Type κ) (before : List T) (x : T) (after : List T)
    → All P (before ++ x ∷ after)
    → P x × All P (before ++ after)
All-middle P [] x after h = h
All-middle P (y ∷ before) x after h =
    let (first, rest) = All-middle P before x after h.1 in (first, (h.0, rest))

length-middle {ℓ} :
    {T : Type ℓ} (before : List T) (x : T) (after : List T)
    → length (before ++ x ∷ after) ≡ length (before ++ after) + 1
length-middle before x after =
    omega (arith, length-append before (x ∷ after), length-append before after)

count_le : (b : Bool) → count b ≤ 1
count_le true = ground arith
count_le false = ground arith

Step-IsFresh : {s t : System} → Step s t → IsFresh s → IsFresh t
unfolding finish_probe clear
Step-IsFresh (begins s now generation c e) v =
    let (free, captured, changed) = take_turn-probes now generation s.cache c e in
    record {
      single = rw changed (ground (arith, v.single, free));
      counted = λ few. rw changed (v.counted few);
      captured = ((λ few. captured ∙ v.counted few), v.captured);
      fresh = λ few. rw changed (v.fresh few);
    }
Step-IsFresh (ends s before p after now ttl result e) v =
    let (own, others) =
      All-middle (λ (q : Probe). s.clears < uint64_size → q.generation ≡ q.begun) before p after
        (rw (← e) v.captured) in
    record {
      single =
          ground
            (arith, v.single, ap length e, length-middle before p after, count_le s.cache.inflight);
      counted = λ few. ground (arith, v.counted few);
      captured = others;
      fresh = λ few. ground (arith, own few, v.counted few, v.fresh few);
    }
Step-IsFresh (reloads s) v = record {
  single = v.single;
  counted = λ few. ground (arith, v.counted);
  captured = All-map s.running (λ p h few. h (omega arith)) v.captured;
  fresh = λ few. inl refl;
}

-- However turns, ends of probes and reloads interleave from an idle cache, the probes in flight are
-- at most one, the one that the cache knows of; and as long as there were fewer than 2^64 reloads,
-- a cached result comes from a probe that began after the last reload.
pub Reach-IsFresh : {s : System} → Reach idle s → IsFresh s
unfolding new_readiness_cache
Reach-IsFresh here = record {
  single = refl;
  counted = λ few. refl;
  captured = tt;
  fresh = λ few. inl refl;
}
Reach-IsFresh (next r step) = Step-IsFresh step (Reach-IsFresh r)
