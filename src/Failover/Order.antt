-- ===== src/Failover/Order.antt =====
-- The order of the upstream requests, and which response is relayed.
use shepard.Base.{
  ℕ, ◌+◌, ◌≤◌, ◌<◌, ◌≡◌, refl, ◌⊎◌, inl, inr, String, Bool, false, Option, none, some, List, [],
  ◌∷◌, ◌++◌, Map, lookup, length, arith, ℤ, pos, ltb_ℤ,
}
use shepard.Config.Types.{
  provider_or_zero, ProviderConfig, TargetConfig, ModelConfig, resolved_targets,
}
use shepard.Limiter.{AdmissionScope}
use shepard.Admission.{Shared}
use shepard.Payload.{Payload}
use shepard.Failover.Retry.{
  Response, responded, Attempt, Sent, Progress, retryable_status, should_failover, try_once,
}
use shepard.Failover.Targets.{run_targets, try_target, has_more, sent_for, start}
use shepard.Failover.Rules.{
  FlowSat, FlowSat-map, OutcomeSat, try_target-FlowSat, try_targets-OutcomeSat,
}
use shepard.Failover.Passes.{Adds, Skips, IsTransient, IsFinal, try_once-PassSat}

-- A request may follow another at its target, one attempt later and after a reply that may pass, or
-- begin at a later target.
abbrev pub MayFollow : Option Sent → Sent → Type 0
MayFollow none s = s.attempt ≡ 0
MayFollow (some prev) s =
    ((s.target ≡ prev.target) × (s.attempt ≡ prev.attempt + 1) × IsTransient prev.reply)
    ⊎ ((prev.target < s.target) × (s.attempt ≡ 0))

-- A log in order, with its last request.
pub data Ordered : Option Sent → List Sent → Type 0 where
  quiet : Ordered none []
  sends :
      {last : Option Sent} {log log' : List Sent} (s : Sent)
      → Ordered last log
      → MayFollow last s
      → log' ≡ log ++ s ∷ []
      → Ordered (some s) log'

abbrev pub IsOrdered : Progress → Type 0
IsOrdered p = (last : Option Sent) × Ordered last p.sent

-- The response is final, or it comes from the last of `total` targets and cannot be retried there.
abbrev pub IsRelayed : ℕ → ℤ → Sent → Response → Type 0
IsRelayed total retries s response =
    (s.reply ≡ responded response)
    × ((retryable_status response.status ≡ false)
        ⊎ ((s.target + 1 ≡ total)
            × ((response.status ≡ 404)
                ⊎ ((response.status ≡ 429) ⊎ (ltb_ℤ (pos s.attempt) retries ≡ false)))))

IsFinal-IsRelayed :
    (total : ℕ) (retries : ℤ) (ts : List TargetConfig) (s : Sent) (response : Response)
    → s.target + 1 + length ts ≡ total
    → IsFinal retries (has_more ts) s response
    → IsRelayed total retries s response
unfolding should_failover
IsFinal-IsRelayed total retries [] s response e f = ground arith
IsFinal-IsRelayed total retries (t ∷ ts) s response e f = ground arith

abbrev Below : ℕ → Option Sent → Type 0
Below n none = Unit
Below n (some s) = s.target < n

Below-MayFollow :
    (last : Option Sent) (s : Sent) → Below s.target last → s.attempt ≡ 0 → MayFollow last s
Below-MayFollow none s b e = e
Below-MayFollow (some prev) s b e = inr (b, e)

Below-mono : (m n : ℕ) (last : Option Sent) → m ≤ n → Below m last → Below n last
Below-mono m n none h b = tt
Below-mono m n (some s) h b = omega arith

-- Before target `n`, and before attempt `j` at target `i`.
abbrev Reached : ℕ → Progress → Type 0
Reached n p = (last : Option Sent) × Ordered last p.sent × Below n last

abbrev CanSend : ℕ → ℕ → Progress → Type 0
CanSend i j p =
    (last : Option Sent) × Ordered last p.sent
    × Below (i + 1) last
    × ((s : Sent) → s.target ≡ i → s.attempt ≡ j → MayFollow last s)

Adds-Ordered :
    {s : Sent} {p q : Progress}
    → CanSend s.target s.attempt p
    → Adds s p q
    → Ordered (some s) q.sent
Adds-Ordered {s} (last, o, b, f) a = sends s o (f s refl refl) a.logged

Skips-Ordered :
    {b : Bool} {last : Option Sent} {p q : Progress}
    → Ordered last p.sent
    → Skips b p q
    → Ordered last q.sent
Skips-Ordered {last} o a = rw a.logged o

module _ (total : ℕ) (retries : ℤ) where
  abbrev Relays : Progress → Sent → Response → List AdmissionScope → Type 0
  Relays q s response held = Ordered (some s) q.sent × IsRelayed total retries s response

  pass-Ordered :
      (ts : List TargetConfig) (provider : ProviderConfig) (env : Attempt) (s : Sent) (p : Progress)
      → s.reply ≡ env.reply
      → s.target + 1 + length ts ≡ total
      → CanSend s.target s.attempt p
      → FlowSat
          (CanSend s.target (s.attempt + 1))
          (Reached (s.target + 1))
          IsOrdered
          Relays
          (try_once retries (has_more ts) provider env s p)
  pass-Ordered ts provider env s p e k c =
      FlowSat-map _ _ _ _ (try_once retries (has_more ts) provider env s p)
        (λ q a. (some s, Adds-Ordered c a.0, omega arith, λ u h j. inl (h, j, a.2)))
        (λ q. elim [
          | inl a ↦ (some s, Adds-Ordered c a, omega arith)
          | inr a ↦ (c.0, Skips-Ordered c.1 a, c.2)
        ])
        (λ q. elim [ inl a ↦ (some s, Adds-Ordered c a) | inr a ↦ (c.0, Skips-Ordered c.1 a) ])
        (λ q t response held a. (
          rw a.1 (Adds-Ordered c a.0),
          rw a.1 (IsFinal-IsRelayed total retries ts s response k a.2),
        ))
        (try_once-PassSat retries (has_more ts) provider s env p e)

  target-Ordered :
      (providers : Map ProviderConfig) (env : ℕ → ℕ → Attempt) (i : ℕ) (t : TargetConfig)
      (ts : List TargetConfig) (body : String) (p : Progress)
      → i + 1 + length ts ≡ total
      → Reached i p
      → FlowSat
          (Reached (i + 1))
          (Reached (i + 1))
          IsOrdered
          Relays
          (try_target providers retries env i t (has_more ts) body p)
  target-Ordered providers env i t ts body p k (last, o, b) =
      try_target-FlowSat (Reached (i + 1)) IsOrdered Relays providers retries env i t (has_more ts)
        body (CanSend i)
        (λ j q h c.
          pass-Ordered ts (provider_or_zero (lookup t.provider providers)) (env i j)
            (sent_for i t body j (env i j).reply) q refl k c)
        (λ j q c. (c.0, c.1, c.2)) p
        (
          last,
          o,
          Below-mono i (i + 1) last (omega arith) b,
          λ s e f. Below-MayFollow last s (rw e b) f,
        )

-- However the providers answer, the upstream requests of one call go out in order: the first
-- request at a target is attempt 0, a request at the same target is one attempt later and follows
-- an error or a retryable status other than 404 and 429, and every other request is at a later
-- target. A response that is relayed answers the last request sent, and its status is not retryable
-- unless it comes from the last target and is 404, 429, or no attempt is left.
pub run_targets-Ordered :
    (marshal : Payload → Option String) (providers : Map ProviderConfig) (payload : Payload)
    (endpoint : String) (model : ModelConfig) (env : ℕ → ℕ → Attempt) (w : Shared)
    → OutcomeSat IsOrdered
        (λ q s response held.
          Ordered (some s) q.sent
          × IsRelayed (length (resolved_targets model)) model.retries s response)
        (run_targets marshal providers payload endpoint model env w)
unfolding run_targets
run_targets-Ordered marshal providers payload endpoint model env w =
    let total : ℕ = length (resolved_targets model) in
    try_targets-OutcomeSat IsOrdered (Relays total model.retries) marshal providers payload endpoint
      model.retries env (λ i ts q. (i + length ts ≡ total) × Reached i q)
      (λ i t ts body q h _.
        let k : i + 1 + length ts ≡ total = omega (arith, h.0) in
        FlowSat-map _ _ _ _ (try_target providers model.retries env i t (has_more ts) body q)
          (λ u c. (k, c)) (λ u c. (k, c)) (λ u c. c) (λ u _ _ _ c. c)
          (target-Ordered total model.retries providers env i t ts body q k h.1))
      (λ i ts q h. (h.1.0, h.1.1)) 0 (resolved_targets model) (start w)
      (omega arith, (none, quiet, tt))
