-- ===== src/Headers.antt =====
-- internal/gateway/gateway.go and logging.go: which headers cross the gateway, and which the log
-- shows. A header is a map from names to lists of values.
pub mod Filtering
mod Tests
use shepard.Base.{
  String, Bool, true, false, ◌||◌, Option, none, some, List, [], ◌∷◌, ◌++◌, Map, lookup, insert,
  erase, ◌==◌, string_eq, if◌then◌else◌,
}
use shepard.Base.Text.{lower_eq, join, ◌<>◌}
use shepard.Config.Types.{ProviderConfig}

abbrev pub Header : Type 0
Header = Map (List String)

-- Whether `strings.ToLower(s)` is a key of a set of lower-case names.
unfoldable pub is_in : String → List String → Bool
unfolding lower_eq
is_in s [] = false
is_in s (t ∷ ts) = lower_eq s t || is_in s ts

abbrev pub forwarded_request_headers : List String
forwarded_request_headers = "accept" ∷ "idempotency-key" ∷ "x-request-id" ∷ []

abbrev pub forwarded_response_headers : List String
forwarded_response_headers =
    "cache-control" ∷ "content-encoding" ∷ "content-type" ∷ "openai-processing-ms" ∷ "request-id"
    ∷ "retry-after" ∷ "x-request-id" ∷ []

abbrev pub sensitive_headers : List String
sensitive_headers =
    "authorization" ∷ "proxy-authorization" ∷ "cookie" ∷ "set-cookie" ∷ "x-api-key" ∷ []

abbrev pub values_or_none : Option (List String) → List String
values_or_none none = []
values_or_none (some vs) = vs

-- `http.Header`'s `Add`, `Set` and `Del` at a name in canonical form.
unfoldable pub add : Header → String → String → Header
add h name value = insert name (values_or_none (lookup name h) ++ value ∷ []) h

unfoldable pub add_values : Header → String → List String → Header
unfolding add
add_values h name [] = h
add_values h name (v ∷ vs) = add_values (add h name v) name vs

-- The loop that both copying functions share, over the set of allowed names.
unfoldable pub copy_headers : List String → Header → Header → Header
unfolding add_values is_in
copy_headers allowed dst [] = dst
copy_headers allowed dst ((name, values) ∷ src) =
    copy_headers allowed (if is_in name allowed then add_values dst name values else dst) src

unfoldable pub copy_request_headers : Header → Header → Header
unfolding copy_headers
copy_request_headers dst src = copy_headers forwarded_request_headers dst src

unfoldable pub copy_response_headers : Header → Header → Header
unfolding copy_headers
copy_response_headers dst src = copy_headers forwarded_response_headers dst src

-- `canonical` is `http.CanonicalHeaderKey`, which `Set` applies to configured names.
module _ (canonical : String → String) where
  unfoldable pub set_all : Header → Map String → Header
  set_all h [] = h
  set_all h ((name, value) ∷ headers) = set_all (insert (canonical name) (value ∷ []) h) headers

  -- `getenv` reads an environment variable, "" when it is unset. `none` is the error that the
  -- variable is empty; the header is then not used.
  unfoldable pub apply_provider_headers :
      (String → String) → Header → ProviderConfig → Option Header
  unfolding set_all
  apply_provider_headers getenv h provider =
      let with_key = insert "Authorization" (("Bearer " <> getenv provider.api_key_env) ∷ []) h in
      let without_key = erase "Authorization" h in
      if provider.api_key_env == ""
      then some (set_all without_key provider.headers)
      else if getenv provider.api_key_env == ""
      then none
      else some (set_all with_key provider.headers)

  -- The header of a request to a provider, as `doUpstreamRequest` builds it.
  unfoldable pub upstream_headers : (String → String) → Header → ProviderConfig → Option Header
  unfolding apply_provider_headers copy_request_headers
  upstream_headers getenv incoming provider =
      apply_provider_headers getenv
        (insert "Content-Type" ("application/json" ∷ []) (copy_request_headers [] incoming))
        provider

-- A redacted copy, for the log.
unfoldable pub logged_headers : Header → Map String
unfolding is_in join
logged_headers [] = []
logged_headers ((name, values) ∷ header) =
    insert name (if is_in name sensitive_headers then "[REDACTED]" else join values ", ")
      (logged_headers header)
