-- ===== src/Challenge/Ambiguity.antt =====
-- src/challenge.rs: the line `link_local` of a message, and two pairs of addresses that share it.
use dn42_autopeer.Base.{ℕ, ◌≡◌, ◌≢◌, refl, ap, true, Option, some, arith}
use dn42_autopeer.Base.Int.{ℤ}
use dn42_autopeer.Base.Text.{Text, text, join}
use dn42_autopeer.Base.Decimal.{lower_hex}
use dn42_autopeer.Ipv6.{Ipv6, display, is_unicast_link_local}
use dn42_autopeer.WgPubKey.{WgPubKey}
use dn42_autopeer.Challenge.Messages.{
  link_local_message, build_create_message, build_update_message,
}

abbrev pub address : ℕ → ℕ → ℕ → ℕ → ℕ → Ipv6
address b c f g h = record { s0 = 0xfe80; s1 = b; s2 = c; s3 = 0; s4 = 0; s5 = f; s6 = g; s7 = h }

-- fe80::1 with fe80:fe80:2::5
abbrev pub one_pair : Ipv6 × Ipv6
one_pair = (address 0 0 0 0 1, address 0xfe80 2 0 0 5)

-- fe80::1:fe80 with fe80:2::5
abbrev pub other_pair : Ipv6 × Ipv6
other_pair = (address 0 0 0 1 0xfe80, address 2 0 0 0 5)

abbrev pub AreLinkLocal : Ipv6 × Ipv6 → Type 0
AreLinkLocal p = (is_unicast_link_local p.0 ≡ true) × (is_unicast_link_local p.1 ≡ true)

one-AreLinkLocal : AreLinkLocal one_pair
unfolding is_unicast_link_local
one-AreLinkLocal = (refl, refl)

other-AreLinkLocal : AreLinkLocal other_pair
unfolding is_unicast_link_local
other-AreLinkLocal = (refl, refl)

same-line : link_local_message (some one_pair) ≡ link_local_message (some other_pair)
unfolding link_local_message display text join lower_hex
same-line = refl

pairs-differ : one_pair ≢ other_pair
pairs-differ e = ground (arith, ap (λ (p : Ipv6 × Ipv6). p.0.s7) e)

-- A signature does not bind the addresses: there are two different pairs of link-local addresses
-- for which every creation, and every update, has the same message.
pub build_create_message-ambiguous :
    (asn : ℕ) (name : Text) (pubkey : WgPubKey) (endpoint : Option Text)
    (change : Option (Option Text)) (mtu : Option ℕ) (new_mtu : Option (Option ℕ)) (nonce : Text)
    (expires_at : ℤ)
    → (p q : Ipv6 × Ipv6) × ((p ≢ q)
        × (AreLinkLocal p × AreLinkLocal q)
        × (build_create_message asn name pubkey endpoint (some p) mtu nonce expires_at
            ≡ build_create_message asn name pubkey endpoint (some q) mtu nonce expires_at)
        × (build_update_message asn name pubkey change (some p) new_mtu nonce expires_at
            ≡ build_update_message asn name pubkey change (some q) new_mtu nonce expires_at))
unfolding build_create_message build_update_message
build_create_message-ambiguous asn name pubkey endpoint change mtu new_mtu nonce expires_at = (
  one_pair,
  other_pair,
  (pairs-differ, (one-AreLinkLocal, other-AreLinkLocal), rw same-line refl, rw same-line refl),
)
