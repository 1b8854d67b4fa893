-- ===== src/Persist/RoundTrip.antt =====
-- src/persist.rs: what is stored is read back.
use dn42_autopeer.Base.{ℕ, ◌≡◌, refl, some, Bool, true, false, arith, ◌<◌, ◌^◌, text_eq, list_beq}
use dn42_autopeer.Base.Int.{pos, u32_as_i32, try_unsigned, try_u32}
use dn42_autopeer.Base.Text.{text}
use dn42_autopeer.Ipv6.{display, parse_ipv6}
use dn42_autopeer.Result.{ok}
use dn42_autopeer.External.{External}
use dn42_autopeer.WgPubKey.{try_from, as_str}
use dn42_autopeer.Peer.{Peer, PeerStatus}
use dn42_autopeer.Persist.Rows.{status_to_str, str_to_status, row_to_peer, peer_to_row}

-- The status of a failed configuration is the one that carries a text.
abbrev pub is_error : PeerStatus → Bool
is_error (PeerStatus.error message) = true
is_error _ = false

-- Every status but that of an error is read back from its text in the table.
pub str_to_status-status_to_str :
    (s : PeerStatus) → is_error s ≡ false → str_to_status (status_to_str s) ≡ s
unfolding str_to_status status_to_str text list_beq
str_to_status-status_to_str PeerStatus.provisioning h = refl
str_to_status-status_to_str PeerStatus.active h = refl
str_to_status-status_to_str PeerStatus.deleting h = refl
str_to_status-status_to_str PeerStatus.disabled h = refl
str_to_status-status_to_str (PeerStatus.error message) h = ground arith

provisioning_lem : str_to_status (text "provisioning") ≡ PeerStatus.provisioning
unfolding str_to_status text list_beq
provisioning_lem = refl

try_unsigned-fits : (limit n : ℕ) → n < limit → try_unsigned limit (pos n) ≡ some n
unfolding try_unsigned
try_unsigned-fits limit n h = ground arith

cast-fits : (n : ℕ) → n < 2 ^ 31 → try_u32 (u32_as_i32 n) ≡ some n
unfolding u32_as_i32 try_unsigned
cast-fits n h = ground arith

-- A reserved peer is read back from its row with the status `provisioning`: its ID is below
-- 2 ^ 31, the ASN is a `u32`, the port and the MTU are `u16`s, its key is a valid one, and its
-- addresses are read back from their text.
pub row_to_peer-peer_to_row :
    ⦃lib : External⦄ (now : ℕ) (p : Peer)
    → p.peer_id < 2 ^ 31
    → p.asn < 2 ^ 32
    → p.listen_port < 2 ^ 16
    → p.mtu < 2 ^ 16
    → try_from (as_str p.pubkey) ≡ ok p.pubkey
    → parse_ipv6 (display p.local_ll_ip) ≡ some p.local_ll_ip
    → parse_ipv6 (display p.remote_ll_ip) ≡ some p.remote_ll_ip
    → row_to_peer (peer_to_row now p) ≡ ok (record p { status = PeerStatus.provisioning })
unfolding row_to_peer peer_to_row
row_to_peer-peer_to_row now p id asn port mtu key here there =
    rw
      (
        cast-fits p.peer_id id,
        try_unsigned-fits (2 ^ 32) p.asn asn,
        key,
        here,
        there,
        try_unsigned-fits (2 ^ 16) p.listen_port port,
        try_unsigned-fits (2 ^ 16) p.mtu mtu,
        provisioning_lem,
      )
      refl
