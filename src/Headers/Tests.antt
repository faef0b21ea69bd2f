-- ===== src/Headers/Tests.antt =====
-- Runs of the header functions, and their theorems at small inputs.
use mathlib.Core.Option
use shepard.Base.{◌≡◌, refl, String, false, some, [], ◌∷◌, lookup, insert, pos, if◌then◌else◌}
use shepard.Base.Text.{join}
use shepard.Config.Types.{ProviderConfig}
use shepard.Headers.{
  Header, is_in, forwarded_request_headers, sensitive_headers, upstream_headers, logged_headers,
}
use shepard.Headers.Filtering.{upstream_headers_independent, lookup-logged_headers}

abbrev incoming : Header
incoming = ("Accept", "text/html" ∷ []) ∷ ("Authorization", "Bearer client" ∷ []) ∷ []

abbrev provider : ProviderConfig
provider = record {
  base_url = "http://localhost/v1";
  protocol = "openai";
  api_key_env = "KEY";
  headers = ("X-Team", "a") ∷ [];
  autodiscover = record { enabled = false; prefix = ""; cache_ttl = pos 0 };
  limits = record { requests_per_minute = pos 0; burst = pos 0; max_concurrent = pos 0 };
  request_timeout = pos 0;
}

abbrev secret_of : String → String
secret_of name = "secret"

abbrev as_given : String → String
as_given name = name

sent_headers :
    upstream_headers as_given secret_of incoming provider
    ≡ some (
        ("Accept", "text/html" ∷ [])
        ∷ ("Content-Type", "application/json" ∷ [])
        ∷ ("Authorization", "Bearer secret" ∷ [])
        ∷ ("X-Team", "a" ∷ [])
        ∷ [])
unfolding upstream_headers lookup insert
sent_headers = refl

redacted : logged_headers incoming ≡ ("Authorization", "[REDACTED]") ∷ ("Accept", "text/html") ∷ []
unfolding logged_headers insert
redacted = refl

authorization_hidden : is_in "Authorization" forwarded_request_headers ≡ false
unfolding is_in
authorization_hidden = refl

upstream_headers_independent_example :
    Option.map (lookup "Authorization") (upstream_headers as_given secret_of incoming provider)
    ≡ Option.map (lookup "Authorization") (upstream_headers as_given secret_of [] provider)
upstream_headers_independent_example =
    upstream_headers_independent as_given secret_of provider "Authorization" incoming []
      authorization_hidden

lookup-logged_headers_example :
    lookup "Authorization" (logged_headers incoming)
    ≡ Option.map
        (λ vs. if is_in "Authorization" sensitive_headers then "[REDACTED]" else join vs ", ")
        (lookup "Authorization" incoming)
lookup-logged_headers_example = lookup-logged_headers "Authorization" incoming
