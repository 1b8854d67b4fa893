-- ===== src/Manager/State.antt =====
-- src/manager.rs: the configuration of the manager, and `asn_link_local`.
use dn42_autopeer.Base.{ℕ, ◌/◌, ◌%◌, ◌^◌, ◌++◌}
use dn42_autopeer.Base.Text.{Text, text}
use dn42_autopeer.Base.Decimal.{decimal}
use dn42_autopeer.Ipv6.{Ipv6}
use dn42_autopeer.Error.{PeerError}
use dn42_autopeer.World.Types.{Failure}

-- `PeerManager` but the store and the locks.
pub record PeerManager : Type 0 where
  pub bird_conf_dir : Text
  pub bird_socket : Text
  pub local_wg_privkey : Text
  pub local_wg_pubkey : Text
  pub public_endpoint : Text
  pub local_asn : ℕ

-- `(asn >> 16) as u16` and `(asn & 0xffff) as u16` are the last two segments.
unfoldable pub asn_link_local : ℕ → Ipv6
asn_link_local asn = record {
  s0 = 0xfe80;
  s1 = 0;
  s2 = 0;
  s3 = 0;
  s4 = 0;
  s5 = 0;
  s6 = asn / 2 ^ 16 % 2 ^ 16;
  s7 = asn % 2 ^ 16;
}

-- `format!("wgp{peer_id}")`
unfoldable pub iface_of : ℕ → Text
iface_of peer_id = text "wgp" ++ decimal peer_id

-- `BirdConfigIo` at a path.
abbrev pub io_error : Text → Failure → PeerError
io_error path f = PeerError.bird_config_io f.io path

abbrev pub child : Text → Text → Text
child dir name = dir ++ (text "/" ++ name)
