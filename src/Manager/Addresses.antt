-- ===== src/Manager/Addresses.antt =====
-- src/manager.rs: the addresses that are chosen for a peer without manual addresses.
use dn42_autopeer.Base.{ℕ, ◌≡◌, refl, ap, arith, ◌<◌, ◌^◌, true}
use dn42_autopeer.Ipv6.{Ipv6, IsIpv6, is_unicast_link_local}
use dn42_autopeer.Manager.State.{asn_link_local}

-- The address of an ASN is a link-local address, with segments of sixteen bits.
pub asn_link_local-IsIpv6 :
    (asn : ℕ) → (is_unicast_link_local (asn_link_local asn) ≡ true) × IsIpv6 (asn_link_local asn)
unfolding asn_link_local is_unicast_link_local
asn_link_local-IsIpv6 asn = (
  refl,
  (
    omega arith,
    omega arith,
    omega arith,
    omega arith,
    omega arith,
    omega arith,
    omega arith,
    omega arith,
  ),
)

-- Two ASNs of 32 bits with the same automatic address are the same, so where both ends of a session
-- between different networks have their automatic addresses, these differ.
pub asn_link_local_inj :
    (m n : ℕ) → m < 2 ^ 32 → n < 2 ^ 32 → asn_link_local m ≡ asn_link_local n → m ≡ n
unfolding asn_link_local
asn_link_local_inj m n hm hn e = omega (arith, ap (λ (a : Ipv6). a.s6) e, ap (λ (a : Ipv6). a.s7) e)
