-- ===== src/Acl/Boundary.antt =====
-- The address at the trust boundary: what a client can and cannot make the gateway believe.
use shepard.Base.{
  ◌≡◌, refl, inl, inr, String, true, false, Option, none, some, List, [], ◌∷◌, ◌++◌, All,
  Option-cases, Bool-cases, arith,
}
use shepard.Base.Text.{split}
use shepard.Acl.{
  Net, ClientAcl, acl_contains, parse_remote_ip, or_peer, untrusted, nearest_untrusted,
  forwarded_client_ip,
}

module _ (net : Net) where
  -- The hops of a header that the search passes over: no address, or a trusted one.
  abbrev pub ArePassed : ClientAcl net → List String → Type 0
  ArePassed trusted parts = All (λ part. untrusted net trusted part ≡ none) parts

  -- Where the search from the last hop ends.
  pub data Nearest (trusted : ClientAcl net) (parts : List String) : Option net.Ip → Type 0 where
    found :
        (before : List String) (part : String) (after : List String) (ip : net.Ip)
        → parts ≡ before ++ part ∷ after
        → untrusted net trusted part ≡ some ip
        → ArePassed trusted after
        → Nearest trusted parts (some ip)
    missed : ArePassed trusted parts → Nearest trusted parts none

  Nearest-cons :
      (trusted : ClientAcl net) (part : String) (parts : List String) (r : Option net.Ip)
      → Nearest trusted parts r
      → Nearest trusted
          (part ∷ parts)
          (elim r [ some ip ↦ some ip | none ↦ untrusted net trusted part ])
  Nearest-cons trusted part parts _ (found before hop after ip e f passed) =
      found (part ∷ before) hop after ip (rw e) f passed
  Nearest-cons trusted part parts _ (missed passed) =
      elim (Option-cases (untrusted net trusted part)) [
        | inl none_here ↦ rw none_here (missed (none_here, passed))
        | inr (ip, here) ↦ rw here (found [] part parts ip refl here passed)
      ]

  nearest_untrusted-Nearest :
      (trusted : ClientAcl net) (parts : List String)
      → Nearest trusted parts (nearest_untrusted net trusted parts)
  unfolding nearest_untrusted
  nearest_untrusted-Nearest trusted [] = missed tt
  nearest_untrusted-Nearest trusted (part ∷ parts) =
      Nearest-cons trusted part parts (nearest_untrusted net trusted parts)
        (nearest_untrusted-Nearest trusted parts)

  -- The client's address, by whether the peer is a trusted proxy.
  pub data Located (remote_addr forwarded : String) (trusted : ClientAcl net)
      : Option net.Ip → Type 0 where
    direct :
        acl_contains net trusted (parse_remote_ip net remote_addr) ≡ false
        → Located remote_addr forwarded trusted (parse_remote_ip net remote_addr)
    all_trusted :
        acl_contains net trusted (parse_remote_ip net remote_addr) ≡ true
        → ArePassed trusted (split forwarded b',')
        → Located remote_addr forwarded trusted (parse_remote_ip net remote_addr)
    behind :
        (before : List String) (part : String) (after : List String) (ip : net.Ip)
        → acl_contains net trusted (parse_remote_ip net remote_addr) ≡ true
        → split forwarded b',' ≡ before ++ part ∷ after
        → untrusted net trusted part ≡ some ip
        → ArePassed trusted after
        → Located remote_addr forwarded trusted (some ip)

  Nearest-Located :
      (remote_addr forwarded : String) (trusted : ClientAcl net) (r : Option net.Ip)
      → acl_contains net trusted (parse_remote_ip net remote_addr) ≡ true
      → Nearest trusted (split forwarded b',') r
      → Located remote_addr forwarded trusted (or_peer net r (parse_remote_ip net remote_addr))
  Nearest-Located remote_addr forwarded trusted _ h (found before part after ip e f passed) =
      behind before part after ip h e f passed
  Nearest-Located remote_addr forwarded trusted _ h (missed passed) = all_trusted h passed

  -- The client's address is the peer's if the peer is not trusted. If the peer is trusted, it is
  -- the hop of the forwarded header nearest to the gateway that is an address and is not trusted,
  -- so that what stands before that hop decides nothing; and it is the peer's if there is no such
  -- hop.
  pub forwarded_client_ip-Located :
      (remote_addr forwarded : String) (trusted : ClientAcl net)
      → Located remote_addr forwarded trusted
          (forwarded_client_ip net remote_addr forwarded (some trusted))
  unfolding forwarded_client_ip
  forwarded_client_ip-Located remote_addr forwarded trusted =
      elim (Bool-cases (acl_contains net trusted (parse_remote_ip net remote_addr))) [
        | inl proxied ↦ rw proxied (
            Nearest-Located remote_addr forwarded trusted _ proxied
              (nearest_untrusted-Nearest trusted (split forwarded b',')))
        | inr unproxied ↦ rw unproxied (direct unproxied)
      ]

  nearest_untrusted-open :
      (trusted : ClientAcl net) (parts : List String)
      → trusted.networks ≡ []
      → nearest_untrusted net trusted parts ≡ none
  unfolding nearest_untrusted untrusted acl_contains
  nearest_untrusted-open trusted [] e = refl
  nearest_untrusted-open trusted (part ∷ parts) e =
      ground (arith, e, nearest_untrusted-open trusted parts e)

  -- Without a trusted network, the forwarded header never changes the client's address: it is the
  -- peer's.
  pub forwarded_client_ip_untrusting :
      (remote_addr forwarded : String) (trusted : ClientAcl net)
      → trusted.networks ≡ []
      → forwarded_client_ip net remote_addr forwarded (some trusted)
        ≡ parse_remote_ip net remote_addr
  unfolding forwarded_client_ip
  forwarded_client_ip_untrusting remote_addr forwarded trusted e =
      ground (arith, nearest_untrusted-open trusted (split forwarded b',') e)
