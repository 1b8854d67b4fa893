-- ===== src/Manager/Recover.antt =====
-- src/manager.rs: `recover`, which runs at startup.
use dn42_autopeer.Base.{
  List, true, not, Option, none, some, keep, any, if◌then◌else◌, ◌==◌, text_eq,
}
use dn42_autopeer.Base.Text.{Text, text}
use dn42_autopeer.External.{External}
use dn42_autopeer.Peer.{Peer, PeerStatus, is_deleting, is_desired}
use dn42_autopeer.Netlink.{delete_interface, list_managed_interfaces}
use dn42_autopeer.World.Action.{Action, pure, for_each, ◌>>=◌, ◌>>◌}
use dn42_autopeer.Persist.{
  PeerChange, list_peers, list_peer_changes, get_peer_by_id, set_status, delete_peer,
}
use dn42_autopeer.Manager.State.{PeerManager, iface_of}
use dn42_autopeer.Manager.Nft.{sync_nft_ports_for}
use dn42_autopeer.Manager.Bird.{sync_bird_configs_for}
use dn42_autopeer.Manager.Wireguard.{apply_wireguard}
use dn42_autopeer.Manager.Changes.{must}

-- An interface that no desired peer has.
unfoldable pub remove_stray : List Peer → Text → Action Unit
remove_stray desired name =
    if any (λ (p : Peer). p.iface_name == name) desired then pure tt else delete_interface name

module _ (self : PeerManager) ⦃lib : External⦄ where
  unfoldable pub gone : Option Peer → PeerChange → Action Unit
  gone (some peer) change = pure tt
  gone none change =
      if change.peer.iface_name == iface_of change.peer.peer_id
      then delete_interface change.peer.iface_name
      else pure tt

  -- The interface of a peer that was deleted while the service was down.
  unfoldable pub remove_deleted : PeerChange → Action Unit
  unfolding gone
  remove_deleted change =
      if change.operation == text "DELETE"
      then (do row ← get_peer_by_id change.peer.peer_id; gone row change)
      else pure tt

  unfoldable pub recover : Action Unit
  unfolding remove_stray remove_deleted
  recover = do
    peers ← list_peers
    let desired = keep is_desired peers
    for_each (apply_wireguard self) desired
    sync_nft_ports_for peers
    sync_bird_configs_for self peers true
    for_each (λ (p : Peer). delete_interface p.iface_name) (keep (λ p. not (is_desired p)) peers)
    names ← list_managed_interfaces
    for_each (remove_stray desired) names
    changes ← list_peer_changes
    for_each remove_deleted changes
    for_each (λ (p : Peer). must p (delete_peer p.peer_id))
        (keep (λ (p : Peer). is_deleting p.status) peers)
    for_each (λ (p : Peer). must p (set_status p.peer_id PeerStatus.active)) desired
