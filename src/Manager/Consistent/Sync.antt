-- ===== src/Manager/Consistent/Sync.antt =====
-- src/manager.rs: the sync of changes and the recovery keep the tables consistent.
use dn42_autopeer.Base.{List, [], ◌∷◌, true, Option, none, some, ◌==◌, text_eq, any}
use dn42_autopeer.Base.Text.{Text, text}
use dn42_autopeer.Error.{PeerError}
use dn42_autopeer.External.{External}
use dn42_autopeer.Peer.{Peer}
use dn42_autopeer.Manager.Apply.{
  sync_nft_ports_for-Keeps, apply_wireguard-Keeps, apply_peer_change-Keeps,
}
use dn42_autopeer.World.Keeps.{
  Keeps, Keeps-bind, Keeps-pure, Keeps-raise, Keeps-if, Keeps-outcome, Keeps-elim_Result,
  Keeps-for_each,
}
use dn42_autopeer.Persist.{PeerChange}
use dn42_autopeer.Persist.Invariant.{IsConsistent}
use dn42_autopeer.Persist.Consistent.{
  Consistent, set_status-Consistent, delete_peer-Consistent, get_peer_by_id-Consistent,
  list_peers-Consistent, list_peer_changes-Consistent, delete_peer_change-Consistent,
}
use dn42_autopeer.Netlink.Keeps.{delete_interface-Keeps, list_managed_interfaces-Keeps}
use dn42_autopeer.Manager.State.{PeerManager, iface_of}
use dn42_autopeer.Manager.Bird.Keeps.{sync_bird_configs_for-Keeps}
use dn42_autopeer.Manager.Changes.{apply_peer_change, sync_changes, sync_pending_peer_changes}
use dn42_autopeer.Manager.Recover.{remove_stray, gone, remove_deleted, recover}
use dn42_autopeer.Manager.Consistent.Operations.{must-Consistent}

remove_stray-Consistent :
    (desired : List Peer) (name : Text) → Keeps Consistent (remove_stray desired name)
unfolding remove_stray
remove_stray-Consistent desired name =
    Keeps-if (any (λ (p : Peer). p.iface_name == name) desired) _ _ (λ _. Keeps-pure tt)
      (λ _. delete_interface-Keeps IsConsistent name)

module _ ⦃lib : External⦄ (self : PeerManager) where
  change-Consistent : (change : PeerChange) → Keeps Consistent (apply_peer_change self change)
  change-Consistent change =
      apply_peer_change-Keeps IsConsistent self set_status-Consistent delete_peer-Consistent change

  sync_changes-Consistent :
      (changes : List PeerChange) (first_error : Option PeerError)
      → Keeps Consistent (sync_changes self changes first_error)
  unfolding sync_changes
  sync_changes-Consistent [] none = Keeps-pure tt
  sync_changes-Consistent [] (some e) = Keeps-raise e
  sync_changes-Consistent (change ∷ changes) first_error =
      Keeps-bind _ _ (Keeps-outcome _ (change-Consistent change)) λ applied.
        Keeps-elim_Result applied _ _
          (λ _. Keeps-bind _ _ (Keeps-outcome _ (delete_peer_change-Consistent _)) λ deleted.
            Keeps-elim_Result deleted _ _ (λ _. sync_changes-Consistent changes _)
              (λ e. sync_changes-Consistent changes _))
          (λ e. sync_changes-Consistent changes _)

  -- The sync of the pending changes keeps the tables consistent, whichever of the changes fail and
  -- at whichever call.
  pub sync_pending_peer_changes-Consistent : Keeps Consistent (sync_pending_peer_changes self)
  unfolding sync_pending_peer_changes
  sync_pending_peer_changes-Consistent =
      Keeps-bind _ _ list_peer_changes-Consistent (λ changes. sync_changes-Consistent changes none)

  gone-Consistent :
      (row : Option Peer) (change : PeerChange) → Keeps Consistent (gone self row change)
  unfolding gone
  gone-Consistent (some peer) change = Keeps-pure tt
  gone-Consistent none change =
      Keeps-if (change.peer.iface_name == iface_of change.peer.peer_id) _ _
        (λ _. delete_interface-Keeps IsConsistent _) (λ _. Keeps-pure tt)

  remove_deleted-Consistent : (change : PeerChange) → Keeps Consistent (remove_deleted self change)
  unfolding remove_deleted
  remove_deleted-Consistent change =
      Keeps-if (change.operation == text "DELETE") _ _
        (λ _. Keeps-bind _ _ (get_peer_by_id-Consistent _) (λ row. gone-Consistent row change))
        (λ _. Keeps-pure tt)

  -- The recovery at startup keeps the tables consistent, whether it succeeds or fails at any call.
  pub recover-Consistent : Keeps Consistent (recover self)
  unfolding recover
  recover-Consistent = Keeps-bind _ _ list_peers-Consistent λ peers.
      Keeps-bind _ _ (Keeps-for_each _ _ (apply_wireguard-Keeps IsConsistent self)) λ _.
        Keeps-bind _ _ (sync_nft_ports_for-Keeps IsConsistent peers) λ _.
          Keeps-bind _ _ (sync_bird_configs_for-Keeps IsConsistent self peers true) λ _.
            Keeps-bind _ _ (Keeps-for_each _ _ (λ p. delete_interface-Keeps IsConsistent _)) λ _.
              Keeps-bind _ _ (list_managed_interfaces-Keeps IsConsistent) λ names.
                Keeps-bind _ _ (Keeps-for_each _ names (remove_stray-Consistent _)) λ _.
                  Keeps-bind _ _ list_peer_changes-Consistent λ changes.
                    Keeps-bind _ _ (Keeps-for_each _ changes remove_deleted-Consistent) λ _.
                      Keeps-bind _ _
                        (Keeps-for_each _ _ (λ p. must-Consistent p _ (delete_peer-Consistent _)))
                        (λ _.
                          Keeps-for_each _ _ (λ p. must-Consistent p _ (set_status-Consistent _ _)))
