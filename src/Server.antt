-- ===== src/Server.antt =====
-- cmd/shepard/main.go, and `Load` and `BroadlyExposedWithoutAccessControls` of
-- internal/config/config.go: how a configuration comes into force, at the start and at a signal.
-- What a file holds when it is read is an argument; the listener and the shutdown are not modelled.
pub mod Process
pub mod Running
mod Tests
use shepard.Base.{
  ◌==◌, string_eq, ◌&&◌, ◌||◌, not, if◌then◌else◌, String, Bool, true, false, Option, none, some,
  List, [], ◌∷◌,
}
use shepard.Base.Text.{trim}
use shepard.Config.Types.{Config, ServerConfig}
use shepard.Config.Defaults.{defaults}
use shepard.Config.Validation.{Parsers, Problem, validate}
use shepard.Acl.{Net, is_bracket}
use shepard.Gateway.{Gateway, GatewayError, new, reload}

-- What `Load` returns.
pub data Loaded : Type 0 where
  loaded : Config → Loaded
  unreadable undecodable : Loaded
  rejected : Problem → Loaded

abbrev pub is_empty : List String → Bool
is_empty [] = true
is_empty (s ∷ ss) = false

abbrev pub checked : Config → Option Problem → Loaded
checked c none = loaded c
checked c (some problem) = rejected problem

-- Validation sees the configuration with its defaults.
abbrev pub decoded : Parsers → Option Config → Loaded
decoded parsers none = undecodable
decoded parsers (some c) = checked (defaults c) (validate parsers (defaults c))

-- `decode` is the YAML decoder with known fields only.
module _ (parsers : Parsers) (decode : String → Option Config) where
  unfoldable pub load : Option String → Loaded
  load none = unreadable
  load (some text) = decoded parsers (decode text)

-- The warnings of `logExposureWarnings`.
pub data Warning : Type 0 where
  wildcard_without_controls inbound_keys_disabled : Warning

-- What a signal is answered with in the log.
pub data Answered : Type 0 where
  refused_file : Loaded → Answered
  refused_reload : GatewayError → Answered
  took_over : Option Warning → Answered

module _ (net : Net) where
  -- How `main` gets to its listener, or where it ends before.
  pub data Started : Type 0 where
    not_loaded : Loaded → Started
    only_checked : Started
    no_gateway : Started
    listening : Option Warning → Gateway net → Started

  -- A signal: what requests did since the last one, and what the file holds.
  pub record Hangup : Type 0 where
    pub during : Gateway net → Gateway net
    pub file : Option String

module _ (net : Net) (is_unspecified : net.Ip → Bool) where
  abbrev pub is_wildcard_ip : Option net.Ip → Bool
  is_wildcard_ip none = false
  is_wildcard_ip (some ip) = is_unspecified ip

  abbrev pub is_wildcard : Option String → Bool
  is_wildcard none = false
  is_wildcard (some host) =
      let ip = net.parse_ip (trim (is_bracket net) host) in host == "" || is_wildcard_ip ip

  unfoldable pub broadly_exposed_without_access_controls : ServerConfig → Bool
  broadly_exposed_without_access_controls s =
      if not (is_empty s.inbound_api_keys) || not (is_empty s.client_networks)
      then false
      else is_wildcard (net.split_host_port s.listen)

  unfoldable pub exposure_warning : ServerConfig → Option Warning
  unfolding broadly_exposed_without_access_controls
  exposure_warning s =
      if broadly_exposed_without_access_controls s
      then some wildcard_without_controls
      else if is_empty s.inbound_api_keys
      then some inbound_keys_disabled
      else none

  abbrev pub with_gateway : Config → Option (Gateway net) → Started net
  with_gateway c none = no_gateway
  with_gateway c (some g) = listening (exposure_warning c.server) g

  unfoldable pub start_loaded : Bool → Bool → Loaded → Started net
  unfolding exposure_warning
  start_loaded check opens (loaded c) =
      if check then only_checked else with_gateway c (new net opens c).1
  start_loaded check opens unreadable = not_loaded unreadable
  start_loaded check opens undecodable = not_loaded undecodable
  start_loaded check opens (rejected problem) = not_loaded (rejected problem)

  abbrev pub answered : Config → Option GatewayError × Gateway net → Answered × Gateway net
  answered c (some error, g) = (refused_reload error, g)
  answered c (none, g) = (took_over (exposure_warning c.server), g)

  -- The body of the loop over the signals.
  unfoldable pub on_loaded : Loaded → Gateway net → Answered × Gateway net
  unfolding exposure_warning
  on_loaded (loaded c) g = answered c (reload net c g)
  on_loaded unreadable g = (refused_file unreadable, g)
  on_loaded undecodable g = (refused_file undecodable, g)
  on_loaded (rejected problem) g = (refused_file (rejected problem), g)

  module _ (parsers : Parsers) (decode : String → Option Config) where
    unfoldable pub start : Bool → Bool → Option String → Started net
    unfolding load start_loaded
    start check opens file = start_loaded check opens (load parsers decode file)

    unfoldable pub on_hangups : List (Hangup net) → Gateway net → Gateway net
    unfolding load on_loaded
    on_hangups [] g = g
    on_hangups (h ∷ hs) g = on_hangups hs (on_loaded (load parsers decode h.file) (h.during g)).1
