-- ===== src/Acl/Samples.antt =====
-- Texts as addresses, for the tests.
use shepard.Base.{refl, String, true, none, some, ◌==◌, string_eq}
use shepard.Config.Samples.{lenient}
use shepard.Acl.{Net}
use shepard.Acl.Creation.{AreSame}

-- Texts as addresses and networks, each with itself alone.
abbrev pub texts : Net
texts = record {
  Ip = String;
  Network = String;
  parse_ip = λ s. some s;
  is_ipv4 = λ ip. true;
  parse_cidr = λ s. some s;
  contains_ip = λ network ip. network == ip;
  split_host_port = λ s. none;
  show_ip = λ ip. ip;
}

pub texts-AreSame : AreSame texts lenient
texts-AreSame = record { ip = λ s. refl; cidr = λ s. refl; host = λ s a e. refl }
