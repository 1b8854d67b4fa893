-- ===== src/Manager/Delete.antt =====
-- src/manager.rs: `delete_peer`.
use dn42_autopeer.Base.{ℕ, not, if◌then◌else◌}
use dn42_autopeer.Base.Text.{Text}
use dn42_autopeer.Error.{PeerError}
use dn42_autopeer.Result.{ok, err, ok_or}
use dn42_autopeer.External.{External}
use dn42_autopeer.Peer.{Peer, PeerStatus}
use dn42_autopeer.World.Action.{Action, pure, raise, lift, outcome, is_ok, ◌>>=◌, ◌>>◌}
use dn42_autopeer.Persist
use dn42_autopeer.Persist.{get_peer, set_status}
use dn42_autopeer.Manager.State.{PeerManager}
use dn42_autopeer.Manager.Nft.{sync_nft_ports}
use dn42_autopeer.Manager.Wireguard.{apply_peer, remove_external_state}

module _ (self : PeerManager) ⦃lib : External⦄ where
  -- The external state could not be removed: the peer is active again, as far as that goes.
  unfoldable pub undo_delete : Peer → Action Unit
  undo_delete peer = do
    active ← outcome (set_status peer.peer_id PeerStatus.active)
    if is_ok active
        then (do
          applied ← outcome (apply_peer self peer)
          if is_ok applied then (do outcome sync_nft_ports; pure tt) else pure tt)
        else pure tt

  -- The part after the ports are synchronised.
  unfoldable pub finish_delete : Peer → ℕ → Text → Action Peer
  finish_delete peer asn peer_name = do
    removed ← outcome (remove_external_state self peer)
    elim removed [
      | err e ↦ do undo_delete peer; raise e
      | ok _ ↦ do
        deleted ← Persist.delete_peer peer.peer_id
        if not deleted then raise (PeerError.not_found asn peer_name) else pure peer
    ]

  unfoldable pub delete_peer : ℕ → Text → Action Peer
  delete_peer asn peer_name = do
    row ← get_peer asn peer_name
    peer ← lift (ok_or row (PeerError.not_found asn peer_name))
    marked ← set_status peer.peer_id PeerStatus.deleting
    if not marked then raise (PeerError.not_found asn peer_name) else (do
      synced ← outcome sync_nft_ports
      elim synced [
        | err e ↦ do outcome (set_status peer.peer_id PeerStatus.active); raise e
        | ok _ ↦ finish_delete peer asn peer_name
      ])
