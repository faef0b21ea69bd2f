-- ===== src/Limiter/Holds.antt =====
-- The concurrency counters against the requests that hold capacity, over any interleaving of
-- admissions, releases and reloads.
use shepard.Base.{
  ℕ, ◌+◌, ◌-◌, ◌≡◌, refl, ◌&&◌, List, [], ◌∷◌, ◌++◌, String, Map, lookup, lookup-insert,
  lookup-erase, is_pos, arith, ◌==◌, nat_eq, string_eq, if◌then◌else◌, eq_iff,
}
use shepard.Limiter.{
  AdmissionScope, BucketState, LimitStore, in_use, consume, consume_all, release_scope, release,
  new_limit_store,
}

-- How many units of a key's concurrency a scope, a request and all requests hold.
abbrev pub weight : String → AdmissionScope → ℕ
weight key scope = if is_pos scope.limits.max_concurrent && scope.key == key then 1 else 0

abbrev pub demand : String → List AdmissionScope → ℕ
demand key [] = 0
demand key (scope ∷ scopes) = weight key scope + demand key scopes

abbrev pub held : String → List (List AdmissionScope) → ℕ
held key [] = 0
held key (scopes ∷ holds) = demand key scopes + held key holds

pub held-append :
    (key : String) (xs ys : List (List AdmissionScope))
    → held key (xs ++ ys) ≡ held key xs + held key ys
held-append key [] ys = omega arith
held-append key (x ∷ xs) ys = omega (arith, held-append key xs ys)

in_use-consume :
    (key : String) (states : Map BucketState) (s : LimitStore) (scope : AdmissionScope)
    → in_use key (consume states s scope) ≡ in_use key s + weight key scope
unfolding consume
in_use-consume key states s scope =
    ground (
      arith,
      eq_iff scope.key key,
      lookup-insert scope.key key (in_use scope.key s + 1) s.concurrent,
    )

pub in_use-consume_all :
    (key : String) (states : Map BucketState) (s : LimitStore) (scopes : List AdmissionScope)
    → in_use key (consume_all states s scopes) ≡ in_use key s + demand key scopes
unfolding consume_all
in_use-consume_all key states s [] = omega arith
in_use-consume_all key states s (scope ∷ scopes) = omega (
  arith,
  in_use-consume_all key states (consume states s scope) scopes,
  in_use-consume key states s scope,
)

in_use-release_scope :
    (key : String) (s : LimitStore) (scope : AdmissionScope)
    → in_use key (release_scope s scope) ≡ in_use key s - weight key scope
unfolding release_scope
in_use-release_scope key s scope = ground (
  arith,
  eq_iff scope.key key,
  lookup-insert scope.key key (in_use scope.key s - 1) s.concurrent,
  lookup-erase scope.key key s.concurrent,
)

pub in_use-release :
    (key : String) (scopes : List AdmissionScope) (s : LimitStore)
    → in_use key (release scopes s) ≡ in_use key s - demand key scopes
unfolding release
in_use-release key [] s = omega arith
in_use-release key (scope ∷ scopes) s =
    omega
      (arith, in_use-release key scopes (release_scope s scope), in_use-release_scope key s scope)

pub in_use-concurrent :
    (key : String) (s s' : LimitStore) → s'.concurrent ≡ s.concurrent → in_use key s' ≡ in_use key s
unfolding in_use
in_use-concurrent key s s' e = rw e

pub in_use-new : (key : String) → in_use key new_limit_store ≡ 0
unfolding in_use new_limit_store lookup
in_use-new key = refl
