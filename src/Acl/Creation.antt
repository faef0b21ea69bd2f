-- ===== src/Acl/Creation.antt =====
-- The ACLs of a validated configuration.
use shepard.Base.{
  ◌≡◌, refl, String, Bool, true, false, Option, none, some, List, [], ◌∷◌, ◌++◌, string_eq,
  Option-cases, Bool-cases, inl, inr, arith,
}
use shepard.Base.Text.{contains, trim_space}
use shepard.Config.Types.{Config}
use shepard.Config.Validation.{Parsers, validate, validate_networks}
use shepard.Config.Validity.{validate-networks}
use shepard.Acl.{
  Net, ClientAcl, created, cidr_form, parse_network, with_suffix, add_networks, new_client_acl,
}

abbrev pub is_some {ℓ} : {T : Type ℓ} → Option T → Bool
is_some none = false
is_some (some a) = true

validate_networks-tail :
    (parsers : Parsers) (value : String) (values : List String)
    → validate_networks parsers (value ∷ values) ≡ none
    → validate_networks parsers values ≡ none
unfolding validate_networks
validate_networks-tail parsers value values e = ground arith

validate_networks-append :
    (parsers : Parsers) (front back : List String)
    → validate_networks parsers (front ++ back) ≡ none
    → (validate_networks parsers front ≡ none) × (validate_networks parsers back ≡ none)
unfolding validate_networks
validate_networks-append parsers [] back e = (refl, e)
validate_networks-append parsers (value ∷ front) back e =
    ground (arith, validate_networks-append parsers front back)

module _ (net : Net) (parsers : Parsers) where
  -- The configuration's parsers are the gateway's, and an address is a network of its own.
  pub record AreSame : Type 0 where
    pub ip : (s : String) → parsers.is_ip s ≡ is_some (net.parse_ip s)
    pub cidr : (s : String) → parsers.is_cidr s ≡ is_some (net.parse_cidr s)
    pub host :
        (s : String) (a : net.Ip)
        → net.parse_ip s ≡ some a
        → is_some (net.parse_cidr (with_suffix net s a)) ≡ true

  -- A value that passes is a network.
  parse_network_passed :
      (value : String) (values : List String)
      → AreSame
      → validate_networks parsers (value ∷ values) ≡ none
      → (network : net.Network) × (parse_network net value ≡ some network)
  unfolding validate_networks cidr_form
  parse_network_passed value values same e = elim (Bool-cases (contains (trim_space value) b'/')) [
    | inl slash ↦ elim (Option-cases (net.parse_cidr (trim_space value))) [
      | inl bad ↦ absurd (ground (arith, same.cidr (trim_space value)))
      | inr (network, good) ↦ (network, ground arith)
    ]
    | inr plain ↦ elim (Option-cases (net.parse_ip (trim_space value))) [
      | inl bad ↦ absurd (ground (arith, same.ip (trim_space value)))
      | inr (a, good) ↦
          elim (Option-cases (net.parse_cidr (with_suffix net (trim_space value) a))) [
            | inl bad ↦ absurd (ground (arith, same.host (trim_space value) a good))
            | inr (network, known) ↦ (network, ground arith)
          ]
    ]
  ]

  add_networks_created :
      (networks : List net.Network) (values : List String)
      → AreSame
      → validate_networks parsers values ≡ none
      → (acl : ClientAcl net) × (add_networks net networks values ≡ created acl)
  unfolding add_networks
  add_networks_created networks [] same e = (record { networks = networks }, refl)
  add_networks_created networks (value ∷ values) same e =
      let (network, here) = parse_network_passed value values same e in
      let (acl, rest) =
        add_networks_created (networks ++ network ∷ []) values same
          (validate_networks-tail parsers value values e) in
      (acl, ground arith)

  -- If the validation's parsers accept what the gateway's do, and every address with its suffix is
  -- a network, then both ACLs of a configuration that passes `Validate` are created.
  pub validate_creates_acls :
      (c : Config)
      → AreSame
      → validate parsers c ≡ none
      → ((acl : ClientAcl net) × (new_client_acl net c.server.client_networks ≡ created acl))
        × ((trusted : ClientAcl net) × (new_client_acl net c.server.trusted_proxy_networks
              ≡ created trusted))
  unfolding new_client_acl
  validate_creates_acls c same e =
      let (clients, proxies) =
        validate_networks-append parsers c.server.client_networks c.server.trusted_proxy_networks
          (validate-networks parsers c e) in
      (
        add_networks_created [] c.server.client_networks same clients,
        add_networks_created [] c.server.trusted_proxy_networks same proxies,
      )
