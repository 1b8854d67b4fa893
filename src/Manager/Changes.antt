-- ===== src/Manager/Changes.antt =====
-- src/manager.rs: `sync_pending_peer_changes` and `apply_peer_change`.
use dn42_autopeer.Base.{List, [], ◌∷◌, Bool, Option, none, some, if◌then◌else◌}
use dn42_autopeer.Error.{PeerError}
use dn42_autopeer.Result.{ok, err}
use dn42_autopeer.External.{External}
use dn42_autopeer.Peer.{Peer, PeerStatus, is_deleting, is_active, is_desired}
use dn42_autopeer.World.Action.{Action, pure, raise, outcome, ◌>>=◌, ◌>>◌}
use dn42_autopeer.Persist.{
  PeerChange, get_peer_by_id, set_status, delete_peer, delete_peer_change, list_peer_changes,
}
use dn42_autopeer.Manager.State.{PeerManager}
use dn42_autopeer.Manager.Nft.{sync_nft_ports}
use dn42_autopeer.Manager.Wireguard.{apply_peer, remove_external_state}

abbrev lost : Peer → PeerError
lost peer = PeerError.not_found peer.asn peer.peer_name

-- An error unless a row was written.
unfoldable pub must : Peer → Action Bool → Action Unit
must peer m = do written ← m; if written then pure tt else raise (lost peer)

module _ (self : PeerManager) ⦃lib : External⦄ where
  -- The match on the row of the peer, and on its status.
  unfoldable pub follow : Option Peer → Peer → Action Unit
  follow none snapshot = remove_external_state self snapshot
  follow (some peer) snapshot =
      if is_desired peer
      then (do
        apply_peer self peer
        if is_active peer.status
            then pure tt
            else must peer (set_status peer.peer_id PeerStatus.active))
      else if is_deleting peer.status
      then (do remove_external_state self peer; must peer (delete_peer peer.peer_id))
      else remove_external_state self peer

  unfoldable pub apply_peer_change : PeerChange → Action Unit
  apply_peer_change change = do
    row ← get_peer_by_id change.peer.peer_id
    follow row change.peer
    sync_nft_ports

  -- The first error is kept.
  abbrev or_first : Option PeerError → PeerError → Option PeerError
  or_first none e = some e
  or_first (some first) e = some first

  unfoldable pub sync_changes : List PeerChange → Option PeerError → Action Unit
  sync_changes [] none = pure tt
  sync_changes [] (some e) = raise e
  sync_changes (change ∷ changes) first_error = do
    applied ← outcome (apply_peer_change change)
    elim applied [
      | err e ↦ sync_changes changes (or_first first_error e)
      | ok _ ↦ do
        deleted ← outcome (delete_peer_change change.event_id)
        elim deleted [
          | ok _ ↦ sync_changes changes first_error
          | err e ↦ sync_changes changes (or_first first_error e)
        ]
    ]

  unfoldable pub sync_pending_peer_changes : Action Unit
  sync_pending_peer_changes = do changes ← list_peer_changes; sync_changes changes none
