-- ===== src/Manager/Deleted.antt =====
-- src/manager.rs: what `delete_peer` leaves.
use dn42_autopeer.Base.{
  ℕ, ◌≡◌, refl, sym, subst, List, [], ◌∷◌, false, not, any, keep, arith, nat_eq,
}
use dn42_autopeer.Base.Int.{int_eq}
use dn42_autopeer.Base.Text.{Text, text}
use dn42_autopeer.Result.{Result, ok, err}
use dn42_autopeer.External.{External}
use dn42_autopeer.Peer.{Peer}
use dn42_autopeer.World.Types.{World, Row}
use dn42_autopeer.World.Action.{acquire, sql_error}
use dn42_autopeer.World.Triple.{
  Ends, Partial, Triple-any, Triple-bind, Triple-pure, Triple-raise, Triple-if, Triple-try,
  Partial-execute,
}
use dn42_autopeer.World.Calls.{Triple-call}
use dn42_autopeer.Persist
use dn42_autopeer.Persist.{has_id, remove_peer, enqueue}
use dn42_autopeer.Persist.Invariant.{enqueue-tables}
use dn42_autopeer.Netlink.Gone.{NoLink, NoLink-IsStable, delete_interface-NoLink}
use dn42_autopeer.Manager.State.{PeerManager}
use dn42_autopeer.Manager.Wireguard.{remove_external_state}
use dn42_autopeer.Manager.Delete.{finish_delete, delete_peer}

-- Neither a row nor a link of the peer is there.
abbrev pub IsGone : Peer → World → Type 0
IsGone peer w = (any (has_id peer.peer_id) w.db.peers ≡ false) × NoLink peer.iface_name w

none_kept :
    (id : ℕ) (rows : List Row) → any (has_id id) (keep (λ r. not (has_id id r)) rows) ≡ false
none_kept id [] = refl
none_kept id (row ∷ rows) = ground (arith, none_kept id rows)

remove-IsGone :
    (peer : Peer)
    → Partial (NoLink peer.iface_name) (Persist.delete_peer peer.peer_id) (λ _. IsGone peer)
unfolding Persist.delete_peer acquire remove_peer
remove-IsGone peer =
    Triple-bind _ _ (Triple-call (λ a w. w) sql_error (NoLink-IsStable _) (λ a w h. h) (λ f w. tt))
      λ _.
        Triple-bind _ _
          (Partial-execute (λ _. IsGone peer) _ (NoLink-IsStable _) (λ now w h. (gone w, h)))
          (λ n. Triple-pure _ (λ w h. h))
  where
    gone :
        (w : World)
        → any
            (has_id peer.peer_id)
            (enqueue
              (text "DELETE")
              (keep (has_id peer.peer_id) w.db.peers)
              (record w.db { peers = keep (λ r. not (has_id peer.peer_id r)) w.db.peers })).peers
          ≡ false
    gone w =
        subst (λ rows. any (has_id peer.peer_id) rows ≡ false) (sym (enqueue-tables _ _ _).0)
          (none_kept peer.peer_id w.db.peers)

module _ ⦃lib : External⦄ (self : PeerManager) where
  remove_external_state-NoLink :
      (peer : Peer)
      → Partial (λ _. Unit) (remove_external_state self peer) (λ _. NoLink peer.iface_name)
  unfolding remove_external_state
  remove_external_state-NoLink peer =
      Triple-bind _ _ (Triple-any _) (λ _. delete_interface-NoLink peer.iface_name)

  finish-IsGone :
      (peer : Peer) (asn : ℕ) (name : Text)
      → Partial (λ _. Unit) (finish_delete self peer asn name) IsGone
  unfolding finish_delete
  finish-IsGone peer asn name =
      Triple-try _ _ _ (remove_external_state-NoLink peer)
        (λ _. Triple-bind _ _ (remove-IsGone peer) λ deleted.
          Triple-if (not deleted) _ _ (λ _. Triple-raise _ (λ w h. tt))
            (λ _. Triple-pure peer (λ w h. h)))
        (λ e. Triple-bind _ _ (Triple-any _) (λ _. Triple-raise e (λ w h. tt)))

  delete-IsGone : (asn : ℕ) (name : Text) → Partial (λ _. Unit) (delete_peer self asn name) IsGone
  unfolding delete_peer
  delete-IsGone asn name = Triple-bind _ _ (Triple-any _) λ row.
      Triple-bind _ _ (Triple-any _) λ peer. Triple-bind _ _ (Triple-any _) λ marked.
        Triple-if (not marked) _ _ (λ _. Triple-raise _ (λ w h. tt))
          λ _.
            Triple-try _ _ _ (Triple-any _) (λ _. finish-IsGone peer asn name)
              (λ e. Triple-bind _ _ (Triple-any _) (λ _. Triple-raise e (λ w h. tt)))

-- A deletion that is reported as done is done; of a failed one nothing is said.
abbrev pub IsDeleted : Result Peer → World → Type 0
IsDeleted (ok peer) w = IsGone peer w
IsDeleted (err e) w = Unit

-- When a deletion returns a peer, whatever failed on the way, no row of the table has the ID of the
-- peer any more, and no link of the kernel has the name of its interface.
pub delete_peer-deletes :
    ⦃lib : External⦄ (self : PeerManager) (asn : ℕ) (name : Text) (w : World)
    → IsDeleted (delete_peer self asn name w).0 (delete_peer self asn name w).1
delete_peer-deletes self asn name w = go _ _ ((delete-IsGone self asn name).at w tt)
  where
    go : (r : Result Peer) (v : World) → Ends IsGone (λ _ _. Unit) r v → IsDeleted r v
    go (ok peer) v h = h
    go (err e) v h = tt
