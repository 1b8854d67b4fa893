-- ===== src/Manager/Create.antt =====
-- src/manager.rs: `create_peer`, the search for a port, and the compensation of a failed creation.
use dn42_autopeer.Base.{
  ℕ, zero, suc, ◌+◌, ◌%◌, Bool, true, false, Option, none, some, if◌then◌else◌, ◌==◌, nat_eq,
}
use dn42_autopeer.Base.Text.{Text, text}
use dn42_autopeer.Error.{PeerError}
use dn42_autopeer.Result.{Result, ok, err}
use dn42_autopeer.External.{External}
use dn42_autopeer.Ipv6.{Ipv6}
use dn42_autopeer.WgPubKey.{WgPubKey}
use dn42_autopeer.Peer.{Peer, PeerStatus}
use dn42_autopeer.Netlink.{listen_port_in_use}
use dn42_autopeer.World.Action.{Action, pure, raise, outcome, is_ok, ◌>>=◌, ◌>>◌}
use dn42_autopeer.Persist.{peer_exists, allocate_peer_id, reserve_peer, set_status, delete_peer}
use dn42_autopeer.Manager.State.{PeerManager, iface_of, asn_link_local}
use dn42_autopeer.Manager.Nft.{sync_nft_ports}
use dn42_autopeer.Manager.Wireguard.{apply_peer, remove_external_state}

abbrev pub or_auto : Option (Ipv6 × Ipv6) → Ipv6 × Ipv6 → Ipv6 × Ipv6
or_auto none auto = auto
or_auto (some given) auto = given

abbrev pub mtu_or : ℕ → Option ℕ → ℕ
mtu_or default none = default
mtu_or default (some mtu) = mtu

unfoldable pub build_peer : ℕ → ℕ → Text → WgPubKey → Option Text → Ipv6 × Ipv6 → ℕ → ℕ → Peer
build_peer peer_id asn peer_name pubkey endpoint link_local listen_port mtu = record {
  peer_id = peer_id;
  peer_name = peer_name;
  iface_name = iface_of peer_id;
  asn = asn;
  pubkey = pubkey;
  endpoint = endpoint;
  local_ll_ip = link_local.0;
  remote_ll_ip = link_local.1;
  status = PeerStatus.provisioning;
  listen_port = listen_port;
  mtu = mtu;
}

-- The port that is tried at an increment. The sum of the two is a `u16` below 30000.
unfoldable pub candidate_port : ℕ → ℕ → ℕ
candidate_port asn increment = 20000 + (asn % 10000 + increment) % 10000

module _ (self : PeerManager) where
  -- The loop over the increments: those that are left, and the next one. The argument is the peer
  -- at a port.
  unfoldable pub try_ports : ℕ → ℕ → ℕ → Text → (ℕ → Peer) → Action Peer
  try_ports zero increment asn peer_name peer_at =
      raise (
        PeerError.validation
          (text "No WireGuard listen port is available from 20000 through 29999"))
  try_ports (suc left) increment asn peer_name peer_at = do
    busy ← listen_port_in_use (candidate_port asn increment) none
    elim busy [
      | true ↦ try_ports left (increment + 1) asn peer_name peer_at
      | false ↦ do
        reserved ← reserve_peer (peer_at (candidate_port asn increment)) (asn == self.local_asn)
        elim reserved [
          | true ↦ pure (peer_at (candidate_port asn increment))
          | false ↦ do
            exists ← peer_exists asn peer_name
            elim exists [
              | true ↦ raise (PeerError.already_exists asn peer_name)
              | false ↦ try_ports left (increment + 1) asn peer_name peer_at
            ]
        ]
    ]

  -- `reserve_peer` of the manager. The rendering that a test makes has no effect and no error.
  unfoldable pub reserve :
      ℕ → Text → WgPubKey → Option Text → Option (Ipv6 × Ipv6) → ℕ → Action Peer
  reserve asn peer_name pubkey endpoint link_local mtu = do
    peer_id ← allocate_peer_id
    try_ports 10000 0 asn peer_name (λ port.
        build_peer peer_id asn peer_name pubkey endpoint
          (or_auto link_local (asn_link_local self.local_asn, asn_link_local asn)) port mtu)

  module _ ⦃lib : External⦄ where
    unfoldable pub delete_if : Bool → ℕ → Action Unit
    delete_if true peer_id = do outcome (delete_peer peer_id); pure tt
    delete_if false peer_id = pure tt

    unfoldable pub compensate_failed_create : Peer → Action Unit
    unfolding delete_if
    compensate_failed_create peer = do
      outcome (set_status peer.peer_id PeerStatus.deleting)
      removed ← outcome (remove_external_state self peer)
      delete_if (is_ok removed) peer.peer_id
      outcome sync_nft_ports
      pure tt

    -- A step whose error is compensated and then returned.
    unfoldable pub or_compensate : Peer → Action Unit → Action Unit
    or_compensate peer step = do
      done ← outcome step
      elim done [ ok _ ↦ pure tt | err e ↦ do compensate_failed_create peer; raise e ]

    -- The match on the result of the last update.
    unfoldable pub activated : Peer → Result Bool → Action Peer
    activated peer (ok true) = pure (record peer { status = PeerStatus.active })
    activated peer (ok false) = do
      compensate_failed_create peer
      raise (PeerError.not_found peer.asn peer.peer_name)
    activated peer (err e) = do compensate_failed_create peer; raise e

    unfoldable pub activate : Peer → Action Peer
    activate peer = do
      stored ← outcome (set_status peer.peer_id PeerStatus.active)
      activated peer stored

    -- The part after the reservation, for a peer that is no test.
    unfoldable pub provision : Peer → Action Peer
    provision peer = do
      or_compensate peer (apply_peer self peer)
      or_compensate peer sync_nft_ports
      activate peer

    unfoldable pub create_peer :
        ℕ → Text → WgPubKey → Option Text → Option (Ipv6 × Ipv6) → Option ℕ → Action Peer
    create_peer asn peer_name pubkey endpoint link_local mtu = do
      exists ← peer_exists asn peer_name
      if exists then raise (PeerError.already_exists asn peer_name) else (do
        peer ← reserve asn peer_name pubkey endpoint link_local (mtu_or 1420 mtu)
        if asn == self.local_asn then pure peer else provision peer)
