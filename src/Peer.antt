-- ===== src/Peer.antt =====
-- src/peer.rs: a peer and its status.
use dn42_autopeer.Base.{ℕ, Option, Bool, true, false, ◌&&◌, not}
use dn42_autopeer.Base.Text.{Text}
use dn42_autopeer.Ipv6.{Ipv6}
use dn42_autopeer.WgPubKey.{WgPubKey}

pub data PeerStatus : Type 0 where
  provisioning active deleting disabled : PeerStatus
  error : Text → PeerStatus

pub record Peer : Type 0 where
  pub peer_id : ℕ
  pub peer_name : Text
  pub iface_name : Text
  pub asn : ℕ
  pub pubkey : WgPubKey
  pub endpoint : Option Text
  pub local_ll_ip : Ipv6
  pub remote_ll_ip : Ipv6
  pub status : PeerStatus
  pub listen_port : ℕ
  pub mtu : ℕ

-- The tests `status == PeerStatus::…` of src/manager.rs.
abbrev pub is_deleting : PeerStatus → Bool
is_deleting PeerStatus.deleting = true
is_deleting _ = false

abbrev pub is_disabled : PeerStatus → Bool
is_disabled PeerStatus.disabled = true
is_disabled _ = false

abbrev pub is_active : PeerStatus → Bool
is_active PeerStatus.active = true
is_active _ = false

-- The filter of `recover`, `sync_nft_ports_for` and `sync_bird_configs_for`.
abbrev pub is_desired : Peer → Bool
is_desired peer = not (is_deleting peer.status) && not (is_disabled peer.status)
