-- ===== src/Limiter/Capacity.antt =====
-- The concurrency limits over every interleaving.
use shepard.Base.{
  ℕ, ◌≤◌, ◌<◌, ◌≡◌, refl, ◌⊎◌, inl, Option, List, [], ◌∷◌, String, pos_part, All, arith, string_eq,
  eq_iff,
}
use shepard.Limiter.{AdmissionScope, LimitStore, in_use, clear}
use shepard.Limiter.Decision.{IsReady, Refusal-concurrent, Decided, admits, refuses, admit-Decided}
use shepard.Limiter.Holds.{
  demand, held, in_use-consume_all, in_use-release, in_use-concurrent, in_use-new,
}
use shepard.Limiter.Traffic.{
  Traffic, idle, after_admit, Reach-in_use, Step, asks, releases, clears, Reach, here, next,
}

module _ (cap : String → ℕ) where
  -- A scope sets a limit of at most its key's capacity, or none.
  abbrev pub IsCapped : AdmissionScope → Type 0
  IsCapped scope = pos_part scope.limits.max_concurrent ≤ cap scope.key

  -- The scopes of one call: capped, with different keys.
  pub record IsCall (scopes : List AdmissionScope) : Type 0 where
    pub capped : All IsCapped scopes
    pub distinct : (key : String) → demand key scopes ≤ 1

  -- A ready call that holds a key finds a unit of it free.
  ready_room :
      (now : ℕ) (s : LimitStore) (key : String) (scopes : List AdmissionScope)
      → All IsCapped scopes
      → All (IsReady now s) scopes
      → (demand key scopes ≡ 0) ⊎ (in_use key s < cap key)
  ready_room now s key [] c r = inl refl
  ready_room now s key (scope ∷ scopes) c r =
      ground (arith, c.0, r.0.has_room, eq_iff scope.key key, ready_room now s key scopes c.1 r.1)

  abbrev IsWithin : LimitStore → Type 0
  IsWithin s = (key : String) → in_use key s ≤ cap key

  after_admit-IsWithin :
      {now : ℕ} {scopes : List AdmissionScope} {s : LimitStore}
      {r : Option (List AdmissionScope) × LimitStore} (holds : List (List AdmissionScope))
      → IsCall scopes
      → IsWithin s
      → Decided now scopes s r
      → IsWithin (after_admit holds r).store
  after_admit-IsWithin {now} {scopes} {s} holds call v (admits ready) = λ key. omega (
    arith,
    v key,
    call.distinct key,
    in_use-consume_all key _ s scopes,
    ready_room now s key scopes call.capped ready,
  )
  after_admit-IsWithin {s} holds call v (refuses s' unready refusal) =
      λ key. omega (arith, v key, in_use-concurrent key s s' (Refusal-concurrent refusal))

  Step-IsWithin : {t u : Traffic} → Step IsCall t u → IsWithin t.store → IsWithin u.store
  unfolding clear
  Step-IsWithin (asks t now scopes call) v =
      after_admit-IsWithin t.holds call v (admit-Decided now scopes t.store)
  Step-IsWithin (releases s xs ys scopes) v =
      λ key. omega (arith, v key, in_use-release key scopes s)
  Step-IsWithin (clears t) v =
      λ key. omega (arith, v key, in_use-concurrent key t.store (clear t.store) refl)

  Reach-IsWithin : {t : Traffic} → Reach IsCall idle t → IsWithin t.store
  Reach-IsWithin here = λ key. omega (arith, in_use-new key)
  Reach-IsWithin (next r st) = Step-IsWithin st (Reach-IsWithin r)

  -- Let every scope of a call set a concurrency limit of at most its key's capacity, or none, and
  -- let no call count a key twice. However calls, releases and reloads interleave from an idle
  -- store, the requests in flight hold no more of a key than its capacity.
  pub Reach-held_le :
      {t : Traffic} (key : String) → Reach IsCall idle t → held key t.holds ≤ cap key
  Reach-held_le {t} key r = omega (arith, Reach-IsWithin r key, Reach-in_use IsCall r key)
