-- ===== src/Acl.antt =====
-- internal/gateway/acl.go: which client addresses are allowed, and which address a request counts
-- as coming from when it passed through proxies.
pub mod Boundary
pub mod Creation
pub mod Samples
mod Tests
use shepard.Base.{
  ℕ, String, Bool, true, false, not, ◌||◌, ◌==◌, nat_eq, if◌then◌else◌, Option, none, some, List,
  [], ◌∷◌, ◌++◌,
}
use shepard.Base.Text.{◌<>◌, trim_space, trim, contains, split}

-- What the code uses of the package `net`. `split_host_port` keeps the host.
pub record Net : Type 1 where
  pub Ip : Type 0
  pub Network : Type 0
  pub parse_ip : String → Option Ip
  pub is_ipv4 : Ip → Bool
  pub parse_cidr : String → Option Network
  pub contains_ip : Network → Ip → Bool
  pub split_host_port : String → Option String
  pub show_ip : Ip → String

module _ (net : Net) where
  pub record ClientAcl : Type 0 where
    pub networks : List net.Network

  -- An ACL, or the value that the error names.
  pub data NewAcl : Type 0 where
    created : ClientAcl → NewAcl
    invalid : String → NewAcl

  -- The suffix that makes an address a network of its own.
  abbrev pub with_suffix : String → net.Ip → String
  with_suffix value ip = if net.is_ipv4 ip then value <> "/32" else value <> "/128"

  -- One value of the loop, in CIDR form: the value itself, or an address with its suffix.
  unfoldable pub cidr_form : String → Option String
  cidr_form value =
      if contains value b'/'
      then some value
      else elim (net.parse_ip value) [ none ↦ none | some ip ↦ some (with_suffix value ip) ]

  abbrev pub parse_network : String → Option net.Network
  parse_network value = elim (cidr_form (trim_space value)) [
    | none ↦ none
    | some text ↦ net.parse_cidr text
  ]

  -- The text that an error shows: as far as the value was rewritten.
  abbrev pub shown : String → String
  shown value = elim (cidr_form (trim_space value)) [ none ↦ trim_space value | some text ↦ text ]

  unfoldable pub add_networks : List net.Network → List String → NewAcl
  unfolding cidr_form
  add_networks networks [] = created (record { networks = networks })
  add_networks networks (value ∷ values) = elim (parse_network value) [
    | none ↦ invalid (shown value)
    | some network ↦ add_networks (networks ++ network ∷ []) values
  ]

  unfoldable pub new_client_acl : List String → NewAcl
  unfolding add_networks
  new_client_acl values = add_networks [] values

  abbrev pub any_contains : List net.Network → net.Ip → Bool
  any_contains [] ip = false
  any_contains (network ∷ networks) ip = net.contains_ip network ip || any_contains networks ip

  abbrev pub contains_in : List net.Network → Option net.Ip → Bool
  contains_in [] ip = true
  contains_in (network ∷ networks) none = false
  contains_in (network ∷ networks) (some ip) = any_contains (network ∷ networks) ip

  -- `clientACL.contains`: without a network, every address is in.
  unfoldable pub acl_contains : ClientAcl → Option net.Ip → Bool
  acl_contains acl ip = contains_in acl.networks ip

  abbrev pub is_bracket : ℕ → Bool
  is_bracket c = c == b'[' || c == b']'

  abbrev pub host_of : Option String → String → String
  host_of none remote_addr = remote_addr
  host_of (some host) remote_addr = host

  unfoldable pub parse_remote_ip : String → Option net.Ip
  parse_remote_ip remote_addr =
      net.parse_ip (trim is_bracket (host_of (net.split_host_port remote_addr) remote_addr))

  unfoldable pub allowed : ClientAcl → String → Bool
  unfolding acl_contains parse_remote_ip
  allowed acl remote_addr = acl_contains acl (parse_remote_ip remote_addr)

  -- A hop's address if it is one and is not trusted.
  unfoldable pub untrusted : ClientAcl → String → Option net.Ip
  unfolding acl_contains
  untrusted trusted part = elim (net.parse_ip (trim_space part)) [
    | none ↦ none
    | some ip ↦ if acl_contains trusted (some ip) then none else some ip
  ]

  -- The loop from the last hop to the first: the hops after the first are looked at before it.
  unfoldable pub nearest_untrusted : ClientAcl → List String → Option net.Ip
  unfolding untrusted
  nearest_untrusted trusted [] = none
  nearest_untrusted trusted (part ∷ parts) = elim (nearest_untrusted trusted parts) [
    | some ip ↦ some ip
    | none ↦ untrusted trusted part
  ]

  abbrev pub or_peer : Option net.Ip → Option net.Ip → Option net.Ip
  or_peer none peer = peer
  or_peer (some ip) peer = some ip

  unfoldable pub forwarded_client_ip : String → String → Option ClientAcl → Option net.Ip
  unfolding parse_remote_ip acl_contains nearest_untrusted
  forwarded_client_ip remote_addr forwarded none = parse_remote_ip remote_addr
  forwarded_client_ip remote_addr forwarded (some trusted) =
      if acl_contains trusted (parse_remote_ip remote_addr)
      then or_peer (nearest_untrusted trusted (split forwarded b',')) (parse_remote_ip remote_addr)
      else parse_remote_ip remote_addr

  unfoldable pub client_ip_string : Option net.Ip → String
  client_ip_string none = "unknown"
  client_ip_string (some ip) = net.show_ip ip
