-- ===== src/Config/Acceptance.antt =====
-- The configurations that `Validate` accepts, exactly.
use shepard.Base.{
  ◌≡◌, ◌≢◌, ◌↔◌, refl, ◌⊎◌, inl, inr, String, true, false, none, List, [], ◌∷◌, ◌++◌, Map, lookup,
  neg_part, All, arith, eq_iff, string_eq, not, if◌then◌else◌, Bool-cases,
}
use shepard.Base.Text.{contains, trim_space}
use shepard.Config.Types.{ProviderConfig, ModelConfig, ServerConfig, Config}
use shepard.Config.Validation.{
  Parsers, reject, validate, validate_providers, validate_server, validate_networks, is_without,
  has_models, any_autodiscover,
}
use shepard.Config.Entries.{
  AreLimitsValid, AllApart, validate_limits-AreLimitsValid, validate_providers-AllApart,
}
use shepard.Config.ModelAcceptance.{
  AreLimitsValid-validate_limits, IsModelAccepted, validate_models_iff,
}
use shepard.Config.ProviderAcceptance.{
  IsFresh, IsProviderAccepted, validate_providers-passes, validate_providers-IsProviderAccepted,
}
use shepard.Config.Validity.{
  or_then-eq-none, reject-eq-none, is_without-eq-false, validate_server-networks,
}

-- A network or an address, once its spaces are cut off.
abbrev pub IsNetwork : Parsers → String → Type 0
IsNetwork parsers value =
    (trim_space value ≢ "")
    × ((if contains (trim_space value) b'/'
          then parsers.is_cidr (trim_space value)
          else parsers.is_ip (trim_space value))
        ≡ true)

validate_networks_iff :
    (parsers : Parsers) (values : List String)
    → (validate_networks parsers values ≡ none) ↔ All (IsNetwork parsers) values
unfolding validate_networks
validate_networks_iff parsers [] = (λ e. tt, λ a. refl)
validate_networks_iff parsers (value ∷ values) = (
  (λ e. (
    ((λ empty. ground (arith, e, empty, eq_iff (trim_space value) "")), ground (arith, e)),
    (validate_networks_iff parsers values).0 (ground (arith, e)),
  )),
  (λ ((named, parsed), a). ground (
    arith,
    named,
    parsed,
    eq_iff (trim_space value) "",
    (validate_networks_iff parsers values).1 a,
  )),
)

-- The server's settings.
pub record IsServerAccepted (parsers : Parsers) (s : ServerConfig) : Type 0 where
  pub client_limits : AreLimitsValid s.client_limits
  pub queue_size : neg_part s.queue.max_size ≡ 0
  pub queue_wait : neg_part s.queue.wait_timeout ≡ 0
  pub logged : neg_part s.logging.max_body_bytes ≡ 0
  pub concurrent : neg_part s.max_concurrent_requests ≡ 0
  pub headers : neg_part s.max_header_bytes ≡ 0
  pub write_idle : neg_part s.write_idle_timeout ≡ 0
  pub readiness : neg_part s.readiness_cache_ttl ≡ 0
  pub networks : All (IsNetwork parsers) (s.client_networks ++ s.trusted_proxy_networks)

validate_server_iff :
    (parsers : Parsers) (s : ServerConfig)
    → (validate_server parsers s ≡ none) ↔ IsServerAccepted parsers s
unfolding validate_server
validate_server_iff parsers s = (
  (λ e. record {
    client_limits =
        validate_limits-AreLimitsValid "server client_limits" s.client_limits (ground (arith, e));
    queue_size = ground (arith, e);
    queue_wait = ground (arith, e);
    logged = ground (arith, e);
    concurrent = ground (arith, e);
    headers = ground (arith, e);
    write_idle = ground (arith, e);
    readiness = ground (arith, e);
    networks =
        (validate_networks_iff parsers (s.client_networks ++ s.trusted_proxy_networks)).0
          (validate_server-networks parsers s e);
  }),
  (λ a.
      rw
        (
          AreLimitsValid-validate_limits "server client_limits" s.client_limits a.client_limits,
          a.queue_size,
          a.queue_wait,
          a.logged,
          a.concurrent,
          a.headers,
          a.write_idle,
          a.readiness,
          (validate_networks_iff parsers (s.client_networks ++ s.trusted_proxy_networks)).1
              a.networks,
        )
        refl),
)

-- A model is configured, or can be discovered.
abbrev pub SomeDiscovers : Map ProviderConfig → Type 0
SomeDiscovers [] = ⊥
SomeDiscovers ((name, p) ∷ ps) = (p.autodiscover.enabled ≡ true) ⊎ SomeDiscovers ps

any_autodiscover_iff : (ps : Map ProviderConfig) → (any_autodiscover ps ≡ true) ↔ SomeDiscovers ps
any_autodiscover_iff [] = (λ e. ground (arith, e), λ s. absurd s)
any_autodiscover_iff ((name, p) ∷ ps) = (
  (λ e. elim (Bool-cases p.autodiscover.enabled) [
    | inl on ↦ inl on
    | inr off ↦ inr ((any_autodiscover_iff ps).0 (ground (arith, e, off)))
  ]),
  (λ s. elim s [
    | inl on ↦ ground (arith, on)
    | inr later ↦ ground (arith, (any_autodiscover_iff ps).1 later)
  ]),
)

-- All that is checked of a configuration.
pub record IsAccepted (parsers : Parsers) (c : Config) : Type 0 where
  pub has_provider : c.providers ≢ []
  pub providers : All (λ e. IsProviderAccepted parsers e.1) c.providers
  pub apart : AllApart c.providers
  pub server : IsServerAccepted parsers c.server
  pub has_model : (c.models ≢ []) ⊎ SomeDiscovers c.providers
  pub models : All (λ e. IsModelAccepted c.providers e.0 e.1) c.models

none_seen : (ps : Map ProviderConfig) → All (λ e. IsFresh [] e.1) ps
unfolding lookup
none_seen [] = tt
none_seen (p ∷ ps) = (inr refl, none_seen ps)

-- The first and the fourth check.
is_without_iff : (ps : Map ProviderConfig) → (is_without ps ≡ false) ↔ (ps ≢ [])
is_without_iff [] = (λ e. is_without-eq-false [] e, λ n. absurd (n refl))
is_without_iff (p ∷ ps) = (λ e. is_without-eq-false (p ∷ ps) e, λ n. refl)

has_models_iff :
    (c : Config) → (has_models c ≡ true) ↔ ((c.models ≢ []) ⊎ SomeDiscovers c.providers)
has_models_iff c = by_models c.models refl
  where
    by_models :
        (models : Map ModelConfig)
        → c.models ≡ models
        → (has_models c ≡ true) ↔ ((c.models ≢ []) ⊎ SomeDiscovers c.providers)
    by_models [] e = rw e (
      (λ on. inr ((any_autodiscover_iff c.providers).0 on)),
      (λ h. elim h [
        | inl n ↦ absurd (n refl)
        | inr discovers ↦ (any_autodiscover_iff c.providers).1 discovers
      ]),
    )
    by_models (m ∷ models) e = rw e ((λ on. inl λ empty. ground (arith, empty)), (λ h. refl))

-- `Validate` accepts a configuration exactly when: it has a provider; every provider has an address
-- with a scheme and a host, no `$` in the name of its key's variable, valid limits (none negative,
-- and a burst only with a rate), a known protocol and no negative request timeout; no two providers
-- discover models under one prefix; the server has valid client limits, networks and proxies that
-- the parsers accept and that are not blank, and no negative queue size, queue wait timeout, bound
-- of logged bodies, maximum of concurrent requests, maximum of header bytes, write idle timeout or
-- readiness cache time; a model is configured or some provider discovers models; and every model
-- has a name, one of the two forms, between zero and ten retries, valid limits, no override of a
-- structural field, and targets that name an upstream model and a configured provider. The server's
-- other timeouts and `max_request_bytes` are not checked.
pub validate_iff :
    (parsers : Parsers) (c : Config) → (validate parsers c ≡ none) ↔ IsAccepted parsers c
unfolding validate
validate_iff parsers c = (accepts, passes)
  where
    accepts : validate parsers c ≡ none → IsAccepted parsers c
    accepts e =
        let (some_provider, e₁) = or_then-eq-none (reject (is_without c.providers) _) _ e in
        let (providers_pass, e₂) =
          or_then-eq-none (validate_providers parsers [] c.providers) _ e₁ in
        let (server_pass, e₃) = or_then-eq-none (validate_server parsers c.server) _ e₂ in
        let (some_model, models_pass) = or_then-eq-none (reject (not (has_models c)) _) _ e₃ in
        record {
          has_provider = (is_without_iff c.providers).0 (reject-eq-none _ _ some_provider);
          providers = validate_providers-IsProviderAccepted parsers [] c.providers providers_pass;
          apart = validate_providers-AllApart parsers [] c.providers providers_pass;
          server = (validate_server_iff parsers c.server).0 server_pass;
          has_model = (has_models_iff c).0 (ground (arith, some_model));
          models = (validate_models_iff c.providers c.models).0 models_pass;
        }

    passes : IsAccepted parsers c → validate parsers c ≡ none
    passes a =
        rw
          (
            (is_without_iff c.providers).1 a.has_provider,
            validate_providers-passes parsers [] c.providers a.providers (none_seen c.providers)
                a.apart,
            (validate_server_iff parsers c.server).1 a.server,
            (has_models_iff c).1 a.has_model,
            (validate_models_iff c.providers c.models).1 a.models,
          )
          refl
