-- ===== src/Upstream/Tests.antt =====
-- Addresses and probes with texts as addresses.
use shepard.Base.{◌≡◌, refl, String, true, false, some}
use shepard.Base.Text.{◌<>◌, trim_prefix, trim_suffix, has_prefix, drop_prefix}
use shepard.Config.Samples.{provider_at}
use shepard.Headers.{apply_provider_headers}
use shepard.Upstream.{Urls, upstream_url, check_provider}

-- An address is its path.
abbrev paths : Urls
paths = record {
  Url = String;
  parse = λ s. some s;
  path = λ u. u;
  target = λ u path query. path <> "?" <> query;
  join = λ a b. a <> "/" <> b;
}

chat_url :
    upstream_url paths "/api/v1/" "/v1/chat/completions" "a=1" ≡ some "/api/v1/chat/completions?a=1"
unfolding upstream_url trim_prefix trim_suffix has_prefix drop_prefix
chat_url = refl

near_available :
    check_provider paths (λ name. name) (λ name. "") (λ request. some 204) (provider_at "") ≡ true
unfolding check_provider trim_prefix trim_suffix has_prefix drop_prefix apply_provider_headers
near_available = refl

redirect_unavailable :
    check_provider paths (λ name. name) (λ name. "") (λ request. some 301) (provider_at "") ≡ false
unfolding check_provider trim_prefix trim_suffix has_prefix drop_prefix apply_provider_headers
redirect_unavailable = refl
