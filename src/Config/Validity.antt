-- ===== src/Config/Validity.antt =====
-- What a configuration that passes `Validate` guarantees to the gateway.
use shepard.Base.{
  ◌++◌, ◌≡◌, ◌≢◌, refl, Bool, true, false, Option, none, some, [], ◌∷◌, Map, is_neg, neg_part, All,
  arith, string_eq, not,
}
use shepard.Config.Types.{ProviderConfig, ServerConfig, Config}
use shepard.Config.Validation.{
  Problem, Parsers, ◌or_then◌, reject, validate, validate_limits, validate_providers,
  validate_server, validate_networks, is_without, has_models,
}
use shepard.Config.Entries.{
  AreLimitsValid, IsModelValid, IsProviderValid, AllApart, validate_limits-AreLimitsValid,
  validate_models-All, validate_providers-All, validate_providers-AllApart,
}

-- The checks before the one at hand have passed.
pub or_then-eq-none : (a b : Option Problem) → a or_then b ≡ none → (a ≡ none) × (b ≡ none)
or_then-eq-none none b e = (refl, e)
or_then-eq-none (some problem) b e = absurd (ground (arith, e))

pub reject-eq-none : (b : Bool) (problem : Problem) → reject b problem ≡ none → b ≡ false
reject-eq-none true problem e = absurd (ground (arith, e))
reject-eq-none false problem e = refl

pub is_without-eq-false : (ps : Map ProviderConfig) → is_without ps ≡ false → ps ≢ []
is_without-eq-false [] e = absurd (ground (arith, e))
is_without-eq-false (p ∷ ps) e = λ empty. ground (arith, empty)

-- What the gateway relies on of the server's settings.
pub record IsServerValid (s : ServerConfig) : Type 0 where
  pub client_limits : AreLimitsValid s.client_limits
  pub queue : (neg_part s.queue.max_size ≡ 0) × (neg_part s.queue.wait_timeout ≡ 0)
  pub ingress : neg_part s.max_concurrent_requests ≡ 0
  pub bodies : neg_part s.logging.max_body_bytes ≡ 0

validate_server-IsServerValid :
    (parsers : Parsers) (s : ServerConfig) → validate_server parsers s ≡ none → IsServerValid s
unfolding validate_server
validate_server-IsServerValid parsers s e =
    let (limits_pass, e₁) =
      or_then-eq-none (validate_limits "server client_limits" s.client_limits) _ e in
    let (size_pass, e₂) = or_then-eq-none (reject (is_neg s.queue.max_size) _) _ e₁ in
    let (wait_pass, e₃) = or_then-eq-none (reject (is_neg s.queue.wait_timeout) _) _ e₂ in
    let (body_pass, e₄) = or_then-eq-none (reject (is_neg s.logging.max_body_bytes) _) _ e₃ in
    let (ingress_pass, e₅) = or_then-eq-none (reject (is_neg s.max_concurrent_requests) _) _ e₄ in
    record {
      client_limits =
          validate_limits-AreLimitsValid "server client_limits" s.client_limits limits_pass;
      queue = (ground (arith, size_pass), ground (arith, wait_pass));
      ingress = ground (arith, ingress_pass);
      bodies = ground (arith, body_pass);
    }

-- What the gateway relies on.
pub record IsValid (c : Config) : Type 0 where
  pub has_provider : c.providers ≢ []
  pub providers : All (λ e. IsProviderValid e.1) c.providers
  pub apart : AllApart c.providers
  pub server : IsServerValid c.server
  pub models : All (λ e. IsModelValid c.providers e.0 e.1) c.models

-- A configuration that passes `Validate` has what the gateway relies on. It has a provider; every
-- provider has valid limits, a known protocol and no negative timeout; no two providers discover
-- models under one prefix; the server has valid client limits, and its queue, its bound on
-- concurrent requests and its log bound are not negative; every model has a name, at most ten
-- retries, valid limits, no override of a structural field, and targets that name an upstream model
-- and a configured provider.
pub validate-IsValid : (parsers : Parsers) (c : Config) → validate parsers c ≡ none → IsValid c
unfolding validate
validate-IsValid parsers c e =
    let (some_provider, e₁) = or_then-eq-none (reject (is_without c.providers) _) _ e in
    let (providers_pass, e₂) = or_then-eq-none (validate_providers parsers [] c.providers) _ e₁ in
    let (server_pass, e₃) = or_then-eq-none (validate_server parsers c.server) _ e₂ in
    let (some_model, models_pass) = or_then-eq-none (reject (not (has_models c)) _) _ e₃ in
    record {
      has_provider =
          is_without-eq-false c.providers (reject-eq-none (is_without c.providers) _ some_provider);
      providers = validate_providers-All parsers [] c.providers providers_pass;
      apart = validate_providers-AllApart parsers [] c.providers providers_pass;
      server = validate_server-IsServerValid parsers c.server server_pass;
      models = validate_models-All c.providers c.models models_pass;
    }

pub validate_server-networks :
    (parsers : Parsers) (s : ServerConfig)
    → validate_server parsers s ≡ none
    → validate_networks parsers (s.client_networks ++ s.trusted_proxy_networks) ≡ none
unfolding validate_server
validate_server-networks parsers s e =
    let e₁ = (or_then-eq-none (validate_limits "server client_limits" s.client_limits) _ e).1 in
    let e₂ = (or_then-eq-none (reject (is_neg s.queue.max_size) _) _ e₁).1 in
    let e₃ = (or_then-eq-none (reject (is_neg s.queue.wait_timeout) _) _ e₂).1 in
    let e₄ = (or_then-eq-none (reject (is_neg s.logging.max_body_bytes) _) _ e₃).1 in
    let e₅ = (or_then-eq-none (reject (is_neg s.max_concurrent_requests) _) _ e₄).1 in
    let e₆ = (or_then-eq-none (reject (is_neg s.max_header_bytes) _) _ e₅).1 in
    let e₇ = (or_then-eq-none (reject (is_neg s.write_idle_timeout) _) _ e₆).1 in
    (or_then-eq-none (reject (is_neg s.readiness_cache_ttl) _) _ e₇).1

-- The networks of a valid configuration have passed the parsers.
pub validate-networks :
    (parsers : Parsers) (c : Config)
    → validate parsers c ≡ none
    → validate_networks parsers (c.server.client_networks ++ c.server.trusted_proxy_networks) ≡ none
unfolding validate
validate-networks parsers c e =
    let e₀ = (or_then-eq-none (reject (is_without c.providers) _) _ e).1 in
    let e₁ = (or_then-eq-none (validate_providers parsers [] c.providers) _ e₀).1 in
    validate_server-networks parsers c.server
      (or_then-eq-none (validate_server parsers c.server) _ e₁).0
