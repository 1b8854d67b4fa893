-- ===== src/Manager/Consistent/Operations.antt =====
-- src/manager.rs: creation, update, deletion and the sync of changes keep the tables consistent.
use dn42_autopeer.Base.{ℕ, zero, suc, ◌+◌, Bool, true, false, not, Option, ◌==◌, nat_eq}
use dn42_autopeer.Base.Text.{Text}
use dn42_autopeer.Result.{Result, ok, err}
use dn42_autopeer.External.{External}
use dn42_autopeer.Ipv6.{Ipv6}
use dn42_autopeer.WgPubKey.{WgPubKey}
use dn42_autopeer.Peer.{Peer, is_deleting}
use dn42_autopeer.World.Action.{Action, is_ok}
use dn42_autopeer.Manager.Apply.{
  sync_nft_ports-Keeps, apply_peer-Keeps, remove_external_state-Keeps,
}
use dn42_autopeer.World.Keeps.{
  Keeps, Keeps-bind, Keeps-pure, Keeps-raise, Keeps-if, Keeps-lift, Keeps-outcome, Keeps-elim_Bool,
  Keeps-elim_Result,
}
use dn42_autopeer.Persist.Invariant.{IsConsistent}
use dn42_autopeer.Persist.Consistent.{
  Consistent, set_status-Consistent, delete_peer-Consistent, update_peer_desired-Consistent,
  allocate_peer_id-Consistent, peer_exists-Consistent, get_peer-Consistent, reserve_peer-Consistent,
}
use dn42_autopeer.Netlink.Keeps.{listen_port_in_use-Keeps}
use dn42_autopeer.Manager.State.{PeerManager}
use dn42_autopeer.Manager.Create.{
  try_ports, reserve, delete_if, compensate_failed_create, or_compensate, activated, activate,
  provision, create_peer,
}
use dn42_autopeer.Manager.Update.{reactivate, compensate_failed_update, apply_update, update_peer}
use dn42_autopeer.Manager.Delete.{undo_delete, finish_delete, delete_peer}
use dn42_autopeer.Manager.Changes.{must}

pub must-Consistent :
    (peer : Peer) (m : Action Bool) → Keeps Consistent m → Keeps Consistent (must peer m)
unfolding must
must-Consistent peer m k =
    Keeps-bind _ _ k λ written. Keeps-if written _ _ (λ _. Keeps-pure tt) (λ _. Keeps-raise _)

module _ ⦃lib : External⦄ (self : PeerManager) where
  try_ports-Consistent :
      (left increment asn : ℕ) (name : Text) (peer_at : ℕ → Peer)
      → Keeps Consistent (try_ports self left increment asn name peer_at)
  unfolding try_ports
  try_ports-Consistent zero increment asn name peer_at = Keeps-raise _
  try_ports-Consistent (suc left) increment asn name peer_at =
      let later = try_ports-Consistent left (increment + 1) asn name peer_at in
      Keeps-bind _ _ (listen_port_in_use-Keeps IsConsistent _ _) λ busy.
        Keeps-elim_Bool busy _ _ later (
          Keeps-bind _ _ (reserve_peer-Consistent _ _) λ reserved.
            Keeps-elim_Bool reserved _ _ (Keeps-pure _) (
              Keeps-bind _ _ (peer_exists-Consistent asn name)
                λ exists. Keeps-elim_Bool exists _ _ (Keeps-raise _) later))

  delete_if-Consistent : (b : Bool) (id : ℕ) → Keeps Consistent (delete_if self b id)
  unfolding delete_if
  delete_if-Consistent true id =
      Keeps-bind _ _ (Keeps-outcome _ (delete_peer-Consistent id)) (λ _. Keeps-pure tt)
  delete_if-Consistent false id = Keeps-pure tt

  compensate-Consistent : (peer : Peer) → Keeps Consistent (compensate_failed_create self peer)
  unfolding compensate_failed_create
  compensate-Consistent peer = Keeps-bind _ _ (Keeps-outcome _ (set_status-Consistent _ _)) λ _.
      Keeps-bind _ _ (Keeps-outcome _ (remove_external_state-Keeps IsConsistent self peer))
        λ removed. Keeps-bind _ _ (delete_if-Consistent _ _) λ _.
          Keeps-bind _ _ (Keeps-outcome _ (sync_nft_ports-Keeps IsConsistent)) (λ _. Keeps-pure tt)

  or_compensate-Consistent :
      (peer : Peer) (step : Action Unit)
      → Keeps Consistent step
      → Keeps Consistent (or_compensate self peer step)
  unfolding or_compensate
  or_compensate-Consistent peer step k = Keeps-bind _ _ (Keeps-outcome _ k) λ done.
      Keeps-elim_Result done _ _ (λ _. Keeps-pure tt)
        (λ e. Keeps-bind _ _ (compensate-Consistent peer) (λ _. Keeps-raise e))

  activated-Consistent :
      (peer : Peer) (stored : Result Bool) → Keeps Consistent (activated self peer stored)
  unfolding activated
  activated-Consistent peer (ok true) = Keeps-pure _
  activated-Consistent peer (ok false) =
      Keeps-bind _ _ (compensate-Consistent peer) (λ _. Keeps-raise _)
  activated-Consistent peer (err e) =
      Keeps-bind _ _ (compensate-Consistent peer) (λ _. Keeps-raise e)

  activate-Consistent : (peer : Peer) → Keeps Consistent (activate self peer)
  unfolding activate
  activate-Consistent peer =
      Keeps-bind _ _ (Keeps-outcome _ (set_status-Consistent _ _)) (activated-Consistent peer)

  provision-Consistent : (peer : Peer) → Keeps Consistent (provision self peer)
  unfolding provision
  provision-Consistent peer =
      Keeps-bind _ _ (or_compensate-Consistent peer _ (apply_peer-Keeps IsConsistent self peer))
        λ _.
          Keeps-bind _ _ (or_compensate-Consistent peer _ (sync_nft_ports-Keeps IsConsistent))
            λ _. activate-Consistent peer

  -- A creation keeps the tables consistent, whether it succeeds, is a test, or fails at any call and
  -- is compensated.
  pub create_peer-Consistent :
      (asn : ℕ) (name : Text) (pubkey : WgPubKey) (endpoint : Option Text)
      (link_local : Option (Ipv6 × Ipv6)) (mtu : Option ℕ)
      → Keeps Consistent (create_peer self asn name pubkey endpoint link_local mtu)
  unfolding create_peer reserve
  create_peer-Consistent asn name pubkey endpoint link_local mtu =
      Keeps-bind _ _ (peer_exists-Consistent asn name) λ exists.
        Keeps-if exists _ _ (λ _. Keeps-raise _)
          λ _.
            Keeps-bind _ _
              (Keeps-bind _ _ allocate_peer_id-Consistent λ id. try_ports-Consistent _ _ _ _ _)
              λ peer.
                Keeps-if (asn == self.local_asn) _ _ (λ _. Keeps-pure peer)
                  (λ _. provision-Consistent peer)

  reactivate-Consistent : (b : Bool) (id : ℕ) → Keeps Consistent (reactivate self b id)
  unfolding reactivate
  reactivate-Consistent true id =
      Keeps-bind _ _ (Keeps-outcome _ (set_status-Consistent _ _)) (λ _. Keeps-pure tt)
  reactivate-Consistent false id = Keeps-pure tt

  restore-Consistent : (peer : Peer) → Keeps Consistent (compensate_failed_update self peer)
  unfolding compensate_failed_update
  restore-Consistent peer =
      Keeps-bind _ _ (Keeps-outcome _ (update_peer_desired-Consistent peer)) λ restored.
        Keeps-elim_Result restored _ _
          (λ _.
            Keeps-bind _ _ (Keeps-outcome _ (apply_peer-Keeps IsConsistent self peer))
              (λ applied. reactivate-Consistent _ _))
          (λ e. Keeps-pure tt)

  apply_update-Consistent :
      (old desired : Peer) (asn : ℕ) (name : Text)
      → Keeps Consistent (apply_update self old desired asn name)
  unfolding apply_update
  apply_update-Consistent old desired asn name =
      Keeps-bind _ _ (Keeps-outcome _ (apply_peer-Keeps IsConsistent self desired)) λ applied.
        Keeps-elim_Result applied _ _
          (λ _.
            Keeps-bind _ _ (set_status-Consistent _ _)
              λ active. Keeps-if (not active) _ _ (λ _. Keeps-raise _) (λ _. Keeps-pure _))
          (λ e. Keeps-bind _ _ (restore-Consistent old) (λ _. Keeps-raise e))

  -- An update keeps the tables consistent, whether it succeeds or fails at any call and is
  -- compensated.
  pub update_peer-Consistent :
      (asn : ℕ) (name : Text) (pubkey : WgPubKey) (endpoint : Option (Option Text))
      (link_local : Option (Ipv6 × Ipv6)) (mtu : Option (Option ℕ))
      → Keeps Consistent (update_peer self asn name pubkey endpoint link_local mtu)
  unfolding update_peer
  update_peer-Consistent asn name pubkey endpoint link_local mtu =
      Keeps-bind _ _ (get_peer-Consistent asn name) λ row. Keeps-bind _ _ (Keeps-lift _) λ old.
        Keeps-if (is_deleting old.status) _ _ (λ _. Keeps-raise _)
          λ _. Keeps-bind _ _ (update_peer_desired-Consistent _) λ stored.
            Keeps-if (not stored) _ _ (λ _. Keeps-raise _) (λ _. apply_update-Consistent _ _ _ _)

  undo_delete-Consistent : (peer : Peer) → Keeps Consistent (undo_delete self peer)
  unfolding undo_delete
  undo_delete-Consistent peer =
      Keeps-bind _ _ (Keeps-outcome _ (set_status-Consistent _ _)) λ active.
        Keeps-if (is_ok active) _ _
          (λ _.
            Keeps-bind _ _ (Keeps-outcome _ (apply_peer-Keeps IsConsistent self peer)) λ applied.
              Keeps-if (is_ok applied) _ _
                (λ _.
                  Keeps-bind _ _ (Keeps-outcome _ (sync_nft_ports-Keeps IsConsistent))
                    (λ _. Keeps-pure tt))
                (λ _. Keeps-pure tt))
          (λ _. Keeps-pure tt)

  finish_delete-Consistent :
      (peer : Peer) (asn : ℕ) (name : Text) → Keeps Consistent (finish_delete self peer asn name)
  unfolding finish_delete
  finish_delete-Consistent peer asn name =
      Keeps-bind _ _ (Keeps-outcome _ (remove_external_state-Keeps IsConsistent self peer))
        λ removed.
          Keeps-elim_Result removed _ _
            (λ _.
              Keeps-bind _ _ (delete_peer-Consistent _)
                λ deleted. Keeps-if (not deleted) _ _ (λ _. Keeps-raise _) (λ _. Keeps-pure peer))
            (λ e. Keeps-bind _ _ (undo_delete-Consistent peer) (λ _. Keeps-raise e))

  -- A deletion keeps the tables consistent, whether it succeeds or fails at any call and is undone.
  pub remove-Consistent : (asn : ℕ) (name : Text) → Keeps Consistent (delete_peer self asn name)
  unfolding delete_peer
  remove-Consistent asn name = Keeps-bind _ _ (get_peer-Consistent asn name) λ row.
      Keeps-bind _ _ (Keeps-lift _) λ peer. Keeps-bind _ _ (set_status-Consistent _ _) λ marked.
        Keeps-if (not marked) _ _ (λ _. Keeps-raise _)
          λ _. Keeps-bind _ _ (Keeps-outcome _ (sync_nft_ports-Keeps IsConsistent)) λ synced.
            Keeps-elim_Result synced _ _ (λ _. finish_delete-Consistent peer asn name)
              (λ e.
                Keeps-bind _ _ (Keeps-outcome _ (set_status-Consistent _ _)) (λ _. Keeps-raise e))
