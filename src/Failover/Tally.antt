-- ===== src/Failover/Tally.antt =====
-- The target loop's counters against its log.
use shepard.Base.{
  ℕ, ◌+◌, ◌*◌, ◌≤◌, ◌<◌, ◌≡◌, refl, inl, inr, String, Bool, true, Option, nat_eq, List, [], ◌∷◌,
  ◌++◌, Map, lookup, length, length-append, arith, ap, ℤ, pos, negsuc, ltb_ℤ,
}
use shepard.Config.Types.{
  provider_or_zero, ProviderConfig, TargetConfig, ModelConfig, resolved_targets,
}
use shepard.Admission.{Shared}
use shepard.Payload.{Payload}
use shepard.Failover.Retry.{Attempt, Sent, Progress, try_once}
use shepard.Failover.Targets.{
  run_targets, try_targets, try_target, has_more, attempt_count, sent_for, start,
}
use shepard.Failover.Rules.{
  FlowSat, FlowSat-map, OutcomeSat, try_target-FlowSat, try_targets-OutcomeSat,
}
use shepard.Failover.Passes.{Adds, Skips, is_failed, try_once-PassSat}

abbrev pub failures : List Sent → ℕ
failures [] = 0
failures (s ∷ log) = is_failed s.reply + failures log

failures-append : (xs ys : List Sent) → failures (xs ++ ys) ≡ failures xs + failures ys
failures-append [] ys = omega arith
failures-append (s ∷ xs) ys = omega (arith, failures-append xs ys)

-- The counters say what the log holds, and it holds no more than `bound` calls.
pub record IsTallied (bound : ℕ) (p : Progress) : Type 0 where
  pub requests : p.upstream_requests ≡ length p.sent
  pub errors : p.upstream_errors ≡ failures p.sent
  pub bounded : length p.sent ≤ bound

Adds-IsTallied :
    (n : ℕ) {s : Sent} {p q : Progress} → Adds s p q → IsTallied n p → IsTallied (n + 1) q
Adds-IsTallied n {s} {p} {q} a c = record {
  requests =
      omega (arith, a.requested, c.requests, ap length a.logged, length-append p.sent (s ∷ []));
  errors = omega (arith, a.erred, c.errors, ap failures a.logged, failures-append p.sent (s ∷ []));
  bounded = omega (arith, c.bounded, ap length a.logged, length-append p.sent (s ∷ []));
}

Skips-IsTallied :
    (m n : ℕ) {b : Bool} {p q : Progress} → m ≤ n → Skips b p q → IsTallied m p → IsTallied n q
Skips-IsTallied m n {p} {q} h a c = record {
  requests = omega (arith, a.requested, c.requests, ap length a.logged);
  errors = omega (arith, a.erred, c.errors, ap failures a.logged);
  bounded = omega (arith, c.bounded, ap length a.logged);
}

weaken : (m n : ℕ) {p : Progress} → m ≤ n → IsTallied m p → IsTallied n p
weaken m n h c = record { requests = c.requests; errors = c.errors; bounded = omega arith }

-- A pass at attempt `j` leaves room for the later ones.
again-lt : (retries : ℤ) (j : ℕ) → ltb_ℤ (pos j) retries ≡ true → j + 1 < attempt_count retries
again-lt (pos n) j h = ground arith
again-lt (negsuc n) j h = ground arith

module _ (retries : ℤ) (total : ℕ) where
  -- The calls that the targets before the `i`-th allow.
  abbrev budget : ℕ → ℕ
  budget i = i * attempt_count retries

  budget_mono : (m n : ℕ) → m ≤ n → budget m ≤ budget n
  budget_mono m n h = grind arith

  abbrev WithinTotal : Progress → Type 0
  WithinTotal = IsTallied (budget total)

  -- A pass at target `i`.
  pass-IsTallied :
      (has_another : Bool) (provider : ProviderConfig) (env : Attempt) (s : Sent) (i : ℕ)
      (p : Progress)
      → s.reply ≡ env.reply
      → s.attempt < attempt_count retries
      → i + 1 ≤ total
      → IsTallied (budget i + s.attempt) p
      → FlowSat
          (IsTallied (budget i + (s.attempt + 1)))
          (IsTallied (budget (i + 1)))
          WithinTotal
          (λ q _ _ _. WithinTotal q)
          (try_once retries has_another provider env s p)
  pass-IsTallied has_another provider env s i p e h k c =
      FlowSat-map _ _ _ _ (try_once retries has_another provider env s p)
        (λ q a. weaken (budget i + s.attempt + 1) _ (omega arith) (Adds-IsTallied _ a.0 c))
        (λ q. elim [
          | inl a ↦ weaken (budget i + s.attempt + 1) _ (omega arith) (Adds-IsTallied _ a c)
          | inr a ↦ Skips-IsTallied (budget i + s.attempt) _ (omega arith) a c
        ])
        (λ q. elim [
          | inl a ↦ weaken (budget i + s.attempt + 1) _ later (Adds-IsTallied _ a c)
          | inr a ↦ Skips-IsTallied (budget i + s.attempt) _ (omega (arith, later)) a c
        ])
        (λ q _ _ _ a. weaken (budget i + s.attempt + 1) _ later (Adds-IsTallied _ a.0 c))
        (try_once-PassSat retries has_another provider s env p e)
    where
      later : budget i + s.attempt + 1 ≤ budget total
      later = omega (arith, budget_mono (i + 1) total k)

  target-IsTallied :
      (providers : Map ProviderConfig) (env : ℕ → ℕ → Attempt) (i : ℕ) (t : TargetConfig)
      (has_another : Bool) (body : String) (p : Progress)
      → i + 1 ≤ total
      → IsTallied (budget i) p
      → FlowSat
          (IsTallied (budget (i + 1)))
          (IsTallied (budget (i + 1)))
          WithinTotal
          (λ q _ _ _. WithinTotal q)
          (try_target providers retries env i t has_another body p)
  target-IsTallied providers env i t has_another body p k c =
      try_target-FlowSat (IsTallied (budget (i + 1))) WithinTotal (λ q _ _ _. WithinTotal q)
        providers retries env i t has_another body
        (λ j q. (j ≤ attempt_count retries) × IsTallied (budget i + j) q)
        (λ j q h a.
          FlowSat-map _ _ _ _
            (try_once retries has_another (provider_or_zero (lookup t.provider providers)) (env i j)
              (sent_for i t body j (env i j).reply) q)
            (λ u c'. (omega (arith, h), c')) (λ u c'. c') (λ u c'. c') (λ u _ _ _ c'. c')
            (pass-IsTallied has_another (provider_or_zero (lookup t.provider providers)) (env i j)
              (sent_for i t body j (env i j).reply) i q refl h k a.1))
        (λ j q a. weaken (budget i + j) _ (omega (arith, a.0)) a.1) p
        (omega arith, weaken (budget i) _ (omega arith) c)

  -- The loops, over the targets that are left.
  try_targets-IsTallied :
      (marshal : Payload → Option String) (providers : Map ProviderConfig) (payload : Payload)
      (endpoint : String) (env : ℕ → ℕ → Attempt) (i : ℕ) (ts : List TargetConfig) (p : Progress)
      → i + length ts ≡ total
      → IsTallied (budget i) p
      → OutcomeSat WithinTotal
          (λ q _ _ _. WithinTotal q)
          (try_targets marshal providers payload endpoint retries env i ts p)
  try_targets-IsTallied marshal providers payload endpoint env i ts p e c =
      try_targets-OutcomeSat WithinTotal (λ q _ _ _. WithinTotal q) marshal providers payload
        endpoint retries env (λ i ts q. (i + length ts ≡ total) × IsTallied (budget i) q)
        (λ i t ts body q h _.
          let k : i + 1 + length ts ≡ total = omega (arith, h.0) in
          FlowSat-map _ _ _ _ (try_target providers retries env i t (has_more ts) body q)
            (λ u c. (k, c)) (λ u c. (k, c)) (λ u c. c) (λ u _ _ _ c. c)
            (target-IsTallied providers env i t (has_more ts) body q (omega (arith, k)) h.1))
        (λ i ts q h. weaken (budget i) _ (budget_mono i total (omega arith)) h.1) i ts p (e, c)

pub run_targets-IsTallied :
    (marshal : Payload → Option String) (providers : Map ProviderConfig) (payload : Payload)
    (endpoint : String) (model : ModelConfig) (env : ℕ → ℕ → Attempt) (w : Shared)
    → let bound : ℕ = length (resolved_targets model) * attempt_count model.retries in
      OutcomeSat
        (IsTallied bound)
        (λ q _ _ _. IsTallied bound q)
        (run_targets marshal providers payload endpoint model env w)
unfolding run_targets
run_targets-IsTallied marshal providers payload endpoint model env w =
    try_targets-IsTallied model.retries (length (resolved_targets model)) marshal providers payload
      endpoint env 0 (resolved_targets model) (start w) (omega arith)
      (record { requests = refl; errors = refl; bounded = omega arith })
