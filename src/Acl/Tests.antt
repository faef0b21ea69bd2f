-- ===== src/Acl/Tests.antt =====
-- Addresses behind proxies, with texts as addresses.
use shepard.Base.{◌≡◌, refl, String, true, none, some, [], ◌∷◌, ◌==◌, string_eq, if◌then◌else◌}
use shepard.Base.Text.{◌<>◌, trim, trim_space, split, contains}
use shepard.Acl.{Net, ClientAcl, created, new_client_acl, forwarded_client_ip}
use shepard.Acl.Boundary.{Located, forwarded_client_ip-Located}

-- Every text but `unknown` is an address, and a network has the one address before its suffix.
abbrev texts : Net
texts = record {
  Ip = String;
  Network = String;
  parse_ip = λ s. if s == "unknown" then none else some s;
  is_ipv4 = λ ip. true;
  parse_cidr = λ s. some s;
  contains_ip = λ network ip. network == ip <> "/32";
  split_host_port = λ s. none;
  show_ip = λ ip. ip;
}

abbrev proxies : ClientAcl texts
proxies = record { networks = "10.0.0.1/32" ∷ "10.0.0.2/32" ∷ [] }

proxies_created : new_client_acl texts (" 10.0.0.1" ∷ "10.0.0.2/32" ∷ []) ≡ created proxies
unfolding new_client_acl trim_space contains
proxies_created = refl

spoofed_hop_ignored :
    forwarded_client_ip texts "10.0.0.1" "6.6.6.6, 7.7.7.7, unknown, 10.0.0.2" (some proxies)
    ≡ some "7.7.7.7"
unfolding forwarded_client_ip trim trim_space split
spoofed_hop_ignored = refl

direct_header_ignored :
    forwarded_client_ip texts "[7.7.7.7]" "6.6.6.6" (some proxies) ≡ some "7.7.7.7"
unfolding forwarded_client_ip trim trim_space split
direct_header_ignored = refl

forwarded_client_ip-Located_example :
    Located texts "10.0.0.1" "6.6.6.6, 7.7.7.7" proxies
      (forwarded_client_ip texts "10.0.0.1" "6.6.6.6, 7.7.7.7" (some proxies))
forwarded_client_ip-Located_example =
    forwarded_client_ip-Located texts "10.0.0.1" "6.6.6.6, 7.7.7.7" proxies
