-- ===== src/Readiness/Probes.antt =====
-- `checkReadiness` from the providers on: who is probed, and what the probes come to.
use mathlib.Core.Option
use shepard.Base.{
  ◌≡◌, ◌↔◌, refl, sym, ap, ◌∙◌, some-inj, String, Bool, true, Option, none, some, List, [], ◌∷◌,
  Map, lookup, string_eq, arith,
}
use shepard.Config.Types.{ProviderConfig, provider_or_zero}
use shepard.Discovery.{sort_names}
use shepard.Readiness.{status_text, check_readiness}
use shepard.Readiness.Results.{Distinct, check_readiness_lem}
use shepard.Readiness.Honesty.{check_readiness-IsHonest, text_ok}

unfoldable pub provider_names : Map ProviderConfig → List String
provider_names [] = []
provider_names ((name, provider) ∷ providers) = name ∷ provider_names providers

-- `check` is `checkProvider`. The probes start in the order of the names; the results are here in that
-- order, and arrive in any.
unfoldable pub probe_all : (ProviderConfig → Bool) → Map ProviderConfig → List String → Map Bool
probe_all check providers [] = []
probe_all check providers (name ∷ names) =
    (name, check (provider_or_zero (lookup name providers))) ∷ probe_all check providers names

unfoldable pub probe_providers : (ProviderConfig → Bool) → Map ProviderConfig → Map Bool
unfolding probe_all provider_names sort_names
probe_providers check providers = probe_all check providers (sort_names (provider_names providers))

-- The results as they arrived: one from each provider, of its own probe.
pub record Arrived (check : ProviderConfig → Bool) (providers : Map ProviderConfig)
    (items : Map Bool) : Type 0 where
  pub once : Distinct items
  pub own : (name : String) → lookup name items ≡ Option.map check (lookup name providers)

some_passed :
    (check : ProviderConfig → Bool) (o : Option ProviderConfig)
    → Option.map status_text (Option.map check o) ≡ some "ok"
    → (p : ProviderConfig) × (o ≡ some p) × (check p ≡ true)
some_passed check none e = absurd (ground (arith, e))
some_passed check (some p) e = (p, refl, some-inj (text_ok (some (check p)) e))

-- If each provider's own probe arrives once, in any order, then the status of every provider is the
-- text of its probe and no other name has one, and the gateway is ready exactly when the probe of
-- some configured provider passes.
pub check_readiness-Arrived :
    (check : ProviderConfig → Bool) (providers : Map ProviderConfig) (items : Map Bool)
    → Arrived check providers items
    → ((name : String)
        → lookup name (check_readiness items).status
          ≡ Option.map status_text (Option.map check (lookup name providers)))
      × (((check_readiness items).ready ≡ true) ↔ (
          (name : String) × (p : ProviderConfig) × (lookup name providers ≡ some p)
          × (check p ≡ true)))
check_readiness-Arrived check providers items a = (shown, (up, down))
  where
    shown :
        (name : String)
        → lookup name (check_readiness items).status
          ≡ Option.map status_text (Option.map check (lookup name providers))
    shown name =
        (check_readiness_lem items name a.once).0 ∙ ap (Option.map status_text) (a.own name)

    up :
        (check_readiness items).ready ≡ true
        → (name : String) × (p : ProviderConfig) × (lookup name providers ≡ some p)
          × (check p ≡ true)
    up e =
        let (name, ok) = (check_readiness-IsHonest items a.once).0 e in
        let (p, found, passed) =
          some_passed check (lookup name providers) (sym (shown name) ∙ ok) in
        (name, p, found, passed)

    down :
        (name : String) × (p : ProviderConfig) × (lookup name providers ≡ some p) × (check p ≡ true)
        → (check_readiness items).ready ≡ true
    down (name, p, found, passed) =
        (check_readiness-IsHonest items a.once).1 (name, shown name ∙ rw (found, passed) refl)
