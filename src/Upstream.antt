-- ===== src/Upstream.antt =====
-- internal/gateway/gateway.go (`upstreamURL`, `doUpstreamRequest`) and readiness.go
-- (`checkProvider`): the requests that the gateway makes to a provider. Sending them is not modelled.
mod Tests
use shepard.Base.{
  ℕ, ◌==◌, string_eq, ◌&&◌, not, ltb, leb, if◌then◌else◌, String, Bool, true, false, Option, none,
  some, List, [], ◌∷◌,
}
use shepard.Base.Text.{trim_prefix, trim_suffix}
use shepard.Config.Types.{ProviderConfig}
use shepard.Headers.{Header, apply_provider_headers, upstream_headers}

-- What the code uses of the packages `net/url` and `path`. `target` has the path and the raw query
-- of an address replaced.
pub record Urls : Type 1 where
  pub Url : Type 0
  pub parse : String → Option Url
  pub path : Url → String
  pub target : Url → String → String → String
  pub join : String → String → String

-- A request that is made. Only a POST has a body.
pub record UpstreamRequest : Type 0 where
  pub method : String
  pub url : String
  pub header : Header
  pub body : String

module _ (urls : Urls) where
  -- `incoming_path` and `raw_query` are the client's.
  unfoldable pub upstream_url : String → String → String → Option String
  upstream_url base incoming_path raw_query = elim (urls.parse base) [
    | none ↦ none
    | some u ↦ some (
        urls.target u (urls.join (trim_suffix (urls.path u) "/") (trim_prefix incoming_path "/v1/"))
          raw_query)
  ]

  abbrev pub with_header : String → String → String → Option Header → Option UpstreamRequest
  with_header method url body none = none
  with_header method url body (some header) =
      some (record { method = method; url = url; header = header; body = body })

  module _ (canonical getenv : String → String) where
    -- `none` where the source returns an error before anything is sent.
    unfoldable pub upstream_request :
        String → String → Header → ProviderConfig → String → Option UpstreamRequest
    unfolding upstream_url
    upstream_request path raw_query incoming provider body =
        elim (upstream_url provider.base_url path raw_query) [
          | none ↦ none
          | some url ↦
              with_header "POST" url body (upstream_headers canonical getenv incoming provider)
        ]

    -- The request for the list of models, of discovery and of a readiness probe.
    unfoldable pub listing_request : ProviderConfig → Option UpstreamRequest
    unfolding upstream_url
    listing_request provider = elim (upstream_url provider.base_url "/v1/models" "") [
      | none ↦ none
      | some url ↦ with_header "GET" url "" (apply_provider_headers canonical getenv [] provider)
    ]

    abbrev pub is_success : Option ℕ → Bool
    is_success none = false
    is_success (some status) = leb 200 status && ltb status 300

    -- `send` gives the status of the response, if there is one.
    unfoldable pub check_provider : (UpstreamRequest → Option ℕ) → ProviderConfig → Bool
    unfolding listing_request
    check_provider send provider = elim (listing_request provider) [
      | none ↦ false
      | some request ↦ is_success (send request)
    ]
