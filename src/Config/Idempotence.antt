-- ===== src/Config/Idempotence.antt =====
-- Defaults are decided once: applied to their own result, they change nothing.
use shepard.Base.{
  ℕ, ◌≡◌, refl, String, Bool, true, false, Option, none, some, [], ◌∷◌, Map, ℤ, pos, is_zero,
  is_pos, ◌&&◌, string_eq, if◌then◌else◌, Bool-cases, inl, inr, arith,
}
use shepard.Config.Types.{
  Limits, ModelConfig, AutodiscoverConfig, ProviderConfig, ServerConfig, Config,
}
use shepard.Config.Defaults.{
  or_else, text_or, enabled_or, default_limits, default_autodiscover, default_provider,
  default_model, default_providers, default_models, default_server, defaults,
}

or_else-or_else : (z : ℤ) (d : ℕ) → or_else (or_else z d) d ≡ or_else z d
or_else-or_else z d = ground arith

text_or-text_or : (s d : String) → text_or (text_or s d) d ≡ text_or s d
text_or-text_or s d = ground arith

enabled_or-enabled_or : (b : Option Bool) → enabled_or (enabled_or b) ≡ enabled_or b
enabled_or-enabled_or none = refl
enabled_or-enabled_or (some b) = refl

if_same {ℓ} : {A : Type ℓ} (b : Bool) (a : A) → (if b then a else a) ≡ a
if_same true a = refl
if_same false a = refl

default_limits-default_limits : (l : Limits) → default_limits (default_limits l) ≡ default_limits l
unfolding default_limits
default_limits-default_limits l =
    elim (Bool-cases (is_pos l.requests_per_minute && is_zero l.burst)) [
      | inl missing ↦
          rw missing (if_same (is_pos l.requests_per_minute && false) (record l { burst = pos 1 }))
      | inr given ↦ rw (given, given) refl
    ]

default_autodiscover-default_autodiscover :
    (name : String) (a : AutodiscoverConfig)
    → default_autodiscover name (default_autodiscover name a) ≡ default_autodiscover name a
unfolding default_autodiscover
default_autodiscover-default_autodiscover name a = elim (Bool-cases a.enabled) [
  | inl on ↦ rw (on, text_or-text_or, or_else-or_else) refl
  | inr off ↦ rw off refl
]

default_provider-default_provider :
    (name : String) (p : ProviderConfig)
    → default_provider name (default_provider name p) ≡ default_provider name p
unfolding default_provider
default_provider-default_provider name p =
    rw (default_limits-default_limits, default_autodiscover-default_autodiscover, text_or-text_or)
      refl

default_server-default_server :
    (s : ServerConfig) → default_server (default_server s) ≡ default_server s
unfolding default_server
default_server-default_server s =
    simp (or_else-or_else, text_or-text_or, enabled_or-enabled_or, default_limits-default_limits)

default_providers-default_providers :
    (ps : Map ProviderConfig) → default_providers (default_providers ps) ≡ default_providers ps
unfolding default_providers
default_providers-default_providers [] = refl
default_providers-default_providers ((name, p) ∷ ps) =
    rw (default_provider-default_provider, default_providers-default_providers ps) refl

default_models-default_models :
    (ms : Map ModelConfig) → default_models (default_models ms) ≡ default_models ms
unfolding default_models default_model
default_models-default_models [] = refl
default_models-default_models ((alias, m) ∷ ms) =
    rw (default_limits-default_limits, default_models-default_models ms) refl

-- The defaults are idempotent: a configuration that has them gets the same settings again.
pub defaults-defaults : (c : Config) → defaults (defaults c) ≡ defaults c
unfolding defaults
defaults-defaults c =
    rw
      (
        default_server-default_server, default_providers-default_providers,
        default_models-default_models,
      )
      refl
