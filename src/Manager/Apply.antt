-- ===== src/Manager/Apply.antt =====
-- src/manager.rs: the steps that bring the external state to the stored one only read the tables,
-- so they keep whatever holds of them.
use dn42_autopeer.Base.{ℕ, Bool, List, false, Option, none, some}
use dn42_autopeer.Base.Text.{Text}
use dn42_autopeer.External.{External}
use dn42_autopeer.Peer.{Peer, PeerStatus, is_desired, is_active, is_deleting}
use dn42_autopeer.World.Keeps.{
  Keeps, IsStable, Keeps-bind, Keeps-pure, Keeps-raise, Keeps-if, Keeps-execute, Keeps-call,
  keeps_rules,
}
use dn42_autopeer.World.Types.{Db}
use dn42_autopeer.World.Action.{Action, execute}
use dn42_autopeer.Manager.Changes.{must, follow, apply_peer_change}
use dn42_autopeer.Persist.{PeerChange, select, set_status, delete_peer, list_peers, get_peer_by_id}
use dn42_autopeer.Netlink.Keeps.{
  delete_interface-Keeps, configure_local_address-Keeps, ensure_wg_interface-Keeps,
  configure_peer-Keeps,
}
use dn42_autopeer.Manager.State.{PeerManager}
use dn42_autopeer.Manager.Nft.{sync_nft_ports_for, run_nft_batch, sync_nft_ports}
use dn42_autopeer.Manager.Bird.{sync_bird_configs}
use dn42_autopeer.Manager.Bird.Keeps.{sync_bird_configs_for-Keeps}
use dn42_autopeer.Manager.Wireguard.{
  resolve_endpoint, resolved, apply_wireguard, apply_peer, remove_external_state,
}

module _ (P : Db → Type 0) where
  stable : IsStable (λ w. P w.db)
  stable = record { advances = λ w h. h }

  pub select-Keeps : {A : Type 0} (view : Db → A) → Keeps (λ w. P w.db) (execute (select view))
  select-Keeps view = Keeps-execute _ stable (λ now w h. h)

  pub sync_nft_ports_for-Keeps :
      (peers : List Peer) → Keeps (λ w. P w.db) (sync_nft_ports_for peers)
  unfolding sync_nft_ports_for run_nft_batch
  sync_nft_ports_for-Keeps peers = search (keeps_rules, Keeps-call, stable) depth 9

  resolved-Keeps : (endpoint : Option Text) → Keeps (λ w. P w.db) (resolved endpoint)
  unfolding resolved resolve_endpoint
  resolved-Keeps none = Keeps-pure none
  resolved-Keeps (some endpoint) = search (keeps_rules, stable) depth 9

  module _ ⦃lib : External⦄ where
    pub list_peers-Keeps : Keeps (λ w. P w.db) list_peers
    unfolding list_peers
    list_peers-Keeps = search (keeps_rules, stable, select-Keeps) depth 9

    pub get_peer_by_id-Keeps : (peer_id : ℕ) → Keeps (λ w. P w.db) (get_peer_by_id peer_id)
    unfolding get_peer_by_id
    get_peer_by_id-Keeps peer_id = search (keeps_rules, stable, select-Keeps) depth 9

    pub sync_nft_ports-Keeps : Keeps (λ w. P w.db) sync_nft_ports
    unfolding sync_nft_ports
    sync_nft_ports-Keeps = Keeps-bind _ _ list_peers-Keeps sync_nft_ports_for-Keeps

    module _ (self : PeerManager) where
      sync_bird-Keeps : Keeps (λ w. P w.db) (sync_bird_configs self)
      unfolding sync_bird_configs
      sync_bird-Keeps =
          Keeps-bind _ _ list_peers-Keeps λ peers. sync_bird_configs_for-Keeps P self peers false

      pub apply_wireguard-Keeps : (peer : Peer) → Keeps (λ w. P w.db) (apply_wireguard self peer)
      unfolding apply_wireguard
      apply_wireguard-Keeps peer = Keeps-bind _ _ (ensure_wg_interface-Keeps P _ _ _) λ _.
          Keeps-bind _ _ (resolved-Keeps peer.endpoint) λ endpoint.
            Keeps-bind _ _ (configure_peer-Keeps P _ _ _ _ _)
              λ _. configure_local_address-Keeps P _ _

      pub apply_peer-Keeps : (peer : Peer) → Keeps (λ w. P w.db) (apply_peer self peer)
      unfolding apply_peer
      apply_peer-Keeps peer = Keeps-bind _ _ (apply_wireguard-Keeps peer) (λ _. sync_bird-Keeps)

      pub remove_external_state-Keeps :
          (peer : Peer) → Keeps (λ w. P w.db) (remove_external_state self peer)
      unfolding remove_external_state
      remove_external_state-Keeps peer =
          Keeps-bind _ _ sync_bird-Keeps (λ _. delete_interface-Keeps P _)

      -- The two writes of the sync.
      module _ (sets : (id : ℕ) (status : PeerStatus) → Keeps (λ w. P w.db) (set_status id status))
          (deletes : (id : ℕ) → Keeps (λ w. P w.db) (delete_peer id)) where
        must-Keeps :
            (peer : Peer) (m : Action Bool)
            → Keeps (λ w. P w.db) m
            → Keeps (λ w. P w.db) (must peer m)
        unfolding must
        must-Keeps peer m k =
            Keeps-bind _ _ k
              λ written. Keeps-if written _ _ (λ _. Keeps-pure tt) (λ _. Keeps-raise _)

        follow-Keeps :
            (row : Option Peer) (snapshot : Peer) → Keeps (λ w. P w.db) (follow self row snapshot)
        unfolding follow
        follow-Keeps none snapshot = remove_external_state-Keeps snapshot
        follow-Keeps (some peer) snapshot =
            Keeps-if (is_desired peer) _ _
              (λ _. Keeps-bind _ _ (apply_peer-Keeps peer) λ _.
                Keeps-if (is_active peer.status) _ _ (λ _. Keeps-pure tt)
                  (λ _. must-Keeps peer _ (sets _ _)))
              (λ _.
                Keeps-if (is_deleting peer.status) _ _
                  (λ _.
                    Keeps-bind _ _ (remove_external_state-Keeps peer)
                      (λ _. must-Keeps peer _ (deletes _)))
                  (λ _. remove_external_state-Keeps peer))

        pub apply_peer_change-Keeps :
            (change : PeerChange) → Keeps (λ w. P w.db) (apply_peer_change self change)
        unfolding apply_peer_change
        apply_peer_change-Keeps change =
            Keeps-bind _ _ (get_peer_by_id-Keeps _)
              λ row. Keeps-bind _ _ (follow-Keeps row change.peer) (λ _. sync_nft_ports-Keeps)
