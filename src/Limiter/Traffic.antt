-- ===== src/Limiter/Traffic.antt =====
-- Requests that share the limiter: every interleaving of `admit`, of the release functions and of
-- a reload's `clear`.
use shepard.Base.{
  ℕ, ◌+◌, ◌-◌, ◌≡◌, refl, Option, none, some, List, [], ◌∷◌, ◌++◌, String, Map, lookup,
  lookup-insert, lookup-erase, arith, nat_eq, string_eq, eq_refl, ap, ◌∙◌, ◌≢◌,
}
use shepard.Limiter.{
  AdmissionScope, BucketState, LimitStore, new_limit_store, in_use, admit, consume, consume_all,
  release_scope, release, clear,
}
use shepard.Limiter.Decision.{Refusal-concurrent, Decided, admits, refuses, admit-Decided}
use shepard.Limiter.Holds.{
  held, held-append, in_use-consume_all, in_use-release, in_use-concurrent, in_use-new,
}

-- The store, and the scopes that each admitted request still holds.
pub record Traffic : Type 0 where
  pub store : LimitStore
  pub holds : List (List AdmissionScope)

abbrev pub idle : Traffic
idle = record { store = new_limit_store; holds = [] }

-- After a call of `admit` the request holds its scopes, if it was admitted.
abbrev pub after_admit :
    List (List AdmissionScope) → Option (List AdmissionScope) × LimitStore → Traffic
after_admit holds (some scopes, s) = record { store = s; holds = scopes ∷ holds }
after_admit holds (none, s) = record { store = s; holds = holds }

module _ (Allowed : List AdmissionScope → Type 0) where
  pub data Step : Traffic → Traffic → Type 0 where
    asks :
        (t : Traffic) (now : ℕ) (scopes : List AdmissionScope)
        → Allowed scopes
        → Step t (after_admit t.holds (admit now scopes t.store))
    releases :
        (s : LimitStore) (xs ys : List (List AdmissionScope)) (scopes : List AdmissionScope)
        → Step
            (record { store = s; holds = xs ++ scopes ∷ ys })
            (record { store = release scopes s; holds = xs ++ ys })
    clears : (t : Traffic) → Step t (record t { store = clear t.store })

  pub data Reach (t : Traffic) : Traffic → Type 0 where
    here : Reach t t
    next : {u v : Traffic} → Reach t u → Step u v → Reach t v

  -- Every counter is exactly what the requests hold.
  abbrev pub IsExact : Traffic → Type 0
  IsExact t = (key : String) → in_use key t.store ≡ held key t.holds

  after_admit-IsExact :
      {now : ℕ} {scopes : List AdmissionScope} {s : LimitStore}
      {r : Option (List AdmissionScope) × LimitStore} (holds : List (List AdmissionScope))
      → IsExact (record { store = s; holds = holds })
      → Decided now scopes s r
      → IsExact (after_admit holds r)
  after_admit-IsExact {scopes} {s} holds v (admits ready) key =
      omega (arith, v key, in_use-consume_all key _ s scopes)
  after_admit-IsExact {s} holds v (refuses s' unready refusal) key =
      omega (arith, v key, in_use-concurrent key s s' (Refusal-concurrent refusal))

  Step-IsExact : {t u : Traffic} → Step t u → IsExact t → IsExact u
  unfolding clear
  Step-IsExact (asks t now scopes _) v =
      after_admit-IsExact t.holds v (admit-Decided now scopes t.store)
  Step-IsExact (releases s xs ys scopes) v = λ key. omega (
    arith,
    v key,
    in_use-release key scopes s,
    held-append key xs (scopes ∷ ys),
    held-append key xs ys,
  )
  Step-IsExact (clears t) v = λ key. in_use-concurrent key t.store _ refl ∙ v key

  Reach-IsExact : {t u : Traffic} → IsExact t → Reach t u → IsExact u
  Reach-IsExact v here = v
  Reach-IsExact v (next r st) = Step-IsExact st (Reach-IsExact v r)

  -- From an idle store, however the allowed calls, releases and reloads interleave, the counter of
  -- every key is what the requests in flight hold of it.
  pub Reach-in_use :
      {t : Traffic} → Reach idle t → (key : String) → in_use key t.store ≡ held key t.holds
  Reach-in_use r = Reach-IsExact in_use-new r

-- No counter stands at 0: it is deleted then.
abbrev pub HasNoZero : LimitStore → Type 0
HasNoZero s = (key : String) → lookup key s.concurrent ≢ some 0

consume-HasNoZero :
    (states : Map BucketState) (s : LimitStore) (scope : AdmissionScope)
    → HasNoZero s
    → HasNoZero (consume states s scope)
unfolding consume
consume-HasNoZero states s scope v key =
    ground (arith, v key, lookup-insert scope.key key (in_use scope.key s + 1) s.concurrent)

consume_all-HasNoZero :
    (states : Map BucketState) (s : LimitStore) (scopes : List AdmissionScope)
    → HasNoZero s
    → HasNoZero (consume_all states s scopes)
unfolding consume_all
consume_all-HasNoZero states s [] v = v
consume_all-HasNoZero states s (scope ∷ scopes) v =
    consume_all-HasNoZero states (consume states s scope) scopes
      (consume-HasNoZero states s scope v)

release_scope-HasNoZero :
    (s : LimitStore) (scope : AdmissionScope) → HasNoZero s → HasNoZero (release_scope s scope)
unfolding release_scope
release_scope-HasNoZero s scope v key = ground (
  arith,
  v key,
  lookup-insert scope.key key (in_use scope.key s - 1) s.concurrent,
  lookup-erase scope.key key s.concurrent,
)

release-HasNoZero :
    (scopes : List AdmissionScope) (s : LimitStore) → HasNoZero s → HasNoZero (release scopes s)
unfolding release
release-HasNoZero [] s v = v
release-HasNoZero (scope ∷ scopes) s v =
    release-HasNoZero scopes (release_scope s scope) (release_scope-HasNoZero s scope v)

-- An empty map is the only one without entries.
lookup-none_nil : (m : Map ℕ) → ((key : String) → lookup key m ≡ none) → m ≡ []
unfolding lookup
lookup-none_nil [] h = refl
lookup-none_nil ((k, n) ∷ m) h = ground (arith, h k, eq_refl k)

module _ (Allowed : List AdmissionScope → Type 0) where
  after_admit-HasNoZero :
      {now : ℕ} {scopes : List AdmissionScope} {s : LimitStore}
      {r : Option (List AdmissionScope) × LimitStore} (holds : List (List AdmissionScope))
      → HasNoZero s
      → Decided now scopes s r
      → HasNoZero (after_admit holds r).store
  after_admit-HasNoZero {scopes} {s} holds v (admits ready) = consume_all-HasNoZero _ s scopes v
  after_admit-HasNoZero holds v (refuses s' unready refusal) =
      λ key. rw (Refusal-concurrent refusal) (v key)

  Step-HasNoZero : {t u : Traffic} → Step Allowed t u → HasNoZero t.store → HasNoZero u.store
  unfolding clear
  Step-HasNoZero (asks t now scopes _) v =
      after_admit-HasNoZero t.holds v (admit-Decided now scopes t.store)
  Step-HasNoZero (releases s xs ys scopes) v = release-HasNoZero scopes s v
  Step-HasNoZero (clears t) v = v

  Reach-HasNoZero : {t : Traffic} → Reach Allowed idle t → HasNoZero t.store
  unfolding new_limit_store lookup
  Reach-HasNoZero here = λ key e. cc
  Reach-HasNoZero (next r st) = Step-HasNoZero st (Reach-HasNoZero r)

  in_use-zero :
      (key : String) (s : LimitStore)
      → HasNoZero s
      → in_use key s ≡ 0
      → lookup key s.concurrent ≡ none
  unfolding in_use
  in_use-zero key s v e = ground (arith, v key)

  -- Nothing leaks: from an idle store, in every reachable state in which no request is in flight,
  -- the map of counters is empty.
  pub Reach-concurrent_empty :
      {t : Traffic} → Reach Allowed idle t → t.holds ≡ [] → t.store.concurrent ≡ []
  Reach-concurrent_empty {t} r e = lookup-none_nil t.store.concurrent λ key.
      in_use-zero key t.store (Reach-HasNoZero r) (Reach-in_use Allowed r key ∙ ap (held key) e)
