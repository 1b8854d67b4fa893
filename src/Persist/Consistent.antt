-- ===== src/Persist/Consistent.antt =====
-- src/persist.rs: every operation of the store keeps the database consistent, whatever fails.
use dn42_autopeer.Base.{ℕ, Bool, inl, inr, if◌then◌else◌, ◌⊎◌, ◌==◌, nat_eq}
use dn42_autopeer.Base.Int.{ℤ}
use dn42_autopeer.Base.Text.{Text}
use dn42_autopeer.Error.{SqlError}
use dn42_autopeer.External.{External}
use dn42_autopeer.Peer.{Peer, PeerStatus}
use dn42_autopeer.World.Types.{World, Db}
use dn42_autopeer.World.Action.{Statement, pure, execute, ◌>>◌}
use dn42_autopeer.World.Keeps.{
  Keeps, IsStable, Leaves, Keeps-execute, Keeps-call, Keeps-bind, Keeps-pure, Keeps-acquire,
  Keeps-if, keeps_rules,
}
use dn42_autopeer.World.Triple.{
  Triple-bind, Triple-execute, Triple-weaken, Triple-Keeps, Keeps-Triple, Gives,
}
use dn42_autopeer.Persist.Nonces.{unix_timestamp, insert_nonce, consume_nonce}
use dn42_autopeer.Persist.Peers.{
  pending, stage, reserve_peer, allocate_peer_id, update_peer_desired, set_status, delete_peer,
  peer_exists, get_peer, get_peer_by_id, list_peers, list_peer_changes, delete_peer_change,
  get_peer_infos_by_asn, select, plain, commit_transaction,
}
use dn42_autopeer.Persist.Invariant.{
  IsConsistent, Preserves, delete_expired-Preserves, add_nonce-Preserves, redeem-Preserves,
  insert_peer-Preserves, store_status-Preserves, store_desired-Preserves, remove_peer-Preserves,
  next_peer_id-Preserves, remove_event-Preserves,
}

-- The database of the world is consistent.
abbrev pub Consistent : World → Type 0
Consistent w = IsConsistent w.db

pub Consistent-IsStable : IsStable Consistent
Consistent-IsStable = record { advances = λ w h. h }

-- A statement that preserves consistency, as a step of an action.
module _ {A : Type 0} where
  pub step : (q : Statement A) → Preserves q → Keeps Consistent (execute q)
  step q p =
      Keeps-execute q Consistent-IsStable (λ now w h. there now w.db w (q now w.db) (p now w.db h))
    where
      there :
          (now : ℕ) (db : Db) (w : World) (o : SqlError ⊎ (A × Db))
          → Leaves IsConsistent o
          → Leaves (λ d. Consistent (record w { db = d })) o
      there now db w (inl e) h = tt
      there now db w (inr (a, d)) h = h

  pub select-Preserves : (view : Db → A) → Preserves (select view)
  select-Preserves view now db h = h

pub ruleset store_rules = (
  keeps_rules, Keeps-call, Consistent-IsStable, step, select-Preserves, delete_expired-Preserves,
  add_nonce-Preserves, redeem-Preserves, store_status-Preserves, store_desired-Preserves,
  remove_peer-Preserves, next_peer_id-Preserves, remove_event-Preserves,
)

pub unix_timestamp-Consistent : Keeps Consistent unix_timestamp
unfolding unix_timestamp
unix_timestamp-Consistent = search store_rules

-- Storing a nonce keeps the tables consistent, whether it returns or fails at any of its calls: no
-- two rows of `peers` share an ID, a port, or an ASN and a name, and no two nonces are the same.
pub insert_nonce-Consistent :
    (asn : ℕ) (nonce : Text) (expires_at : ℤ) → Keeps Consistent (insert_nonce asn nonce expires_at)
unfolding insert_nonce
insert_nonce-Consistent asn nonce expires_at =
    search (store_rules, unix_timestamp-Consistent) depth 9

pub consume_nonce-Consistent :
    (asn : ℕ) (nonce : Text) (expires_at : ℤ)
    → Keeps Consistent (consume_nonce asn nonce expires_at)
unfolding consume_nonce
consume_nonce-Consistent asn nonce expires_at =
    search (store_rules, unix_timestamp-Consistent) depth 9

pub set_status-Consistent :
    (peer_id : ℕ) (status : PeerStatus) → Keeps Consistent (set_status peer_id status)
unfolding set_status
set_status-Consistent peer_id status = search store_rules depth 9

pub delete_peer-Consistent : (peer_id : ℕ) → Keeps Consistent (delete_peer peer_id)
unfolding delete_peer
delete_peer-Consistent peer_id = search store_rules depth 9

-- Storing the desired state of a peer, which may move it to another port, keeps the tables
-- consistent, whether it returns or fails at any of its calls.
pub update_peer_desired-Consistent : (peer : Peer) → Keeps Consistent (update_peer_desired peer)
unfolding update_peer_desired
update_peer_desired-Consistent peer = search store_rules depth 9

pub allocate_peer_id-Consistent : Keeps Consistent allocate_peer_id
unfolding allocate_peer_id
allocate_peer_id-Consistent = search store_rules depth 9

pub peer_exists-Consistent : (asn : ℕ) (name : Text) → Keeps Consistent (peer_exists asn name)
unfolding peer_exists
peer_exists-Consistent asn name = search store_rules depth 9

pub delete_peer_change-Consistent : (event_id : ℕ) → Keeps Consistent (delete_peer_change event_id)
unfolding delete_peer_change
delete_peer_change-Consistent event_id = search store_rules depth 9

pub get_peer_infos_by_asn-Consistent : (asn : ℕ) → Keeps Consistent (get_peer_infos_by_asn asn)
unfolding get_peer_infos_by_asn
get_peer_infos_by_asn-Consistent asn = search store_rules depth 9

module _ ⦃lib : External⦄ where
  pub get_peer-Consistent : (asn : ℕ) (name : Text) → Keeps Consistent (get_peer asn name)
  unfolding get_peer
  get_peer-Consistent asn name = search store_rules depth 9

  pub get_peer_by_id-Consistent : (peer_id : ℕ) → Keeps Consistent (get_peer_by_id peer_id)
  unfolding get_peer_by_id
  get_peer_by_id-Consistent peer_id = search store_rules depth 9

  pub list_peers-Consistent : Keeps Consistent list_peers
  unfolding list_peers
  list_peers-Consistent = search store_rules depth 9

  pub list_peer_changes-Consistent : Keeps Consistent list_peer_changes
  unfolding list_peer_changes
  list_peer_changes-Consistent = search store_rules depth 9

-- The database that a transaction would leave is consistent, and so is the one before it.
abbrev BothConsistent : {A : Type 0} → A × Db → World → Type 0
BothConsistent r w = Consistent w × IsConsistent r.1

stage-Gives :
    {A : Type 0} (w : World) (o : SqlError ⊎ (A × Db))
    → Consistent w
    → Leaves IsConsistent o
    → Gives {A = A × Db}
        (λ a db. Consistent (record w { db = db }) × BothConsistent a (record w { db = db }))
        (stage o w.db)
unfolding stage
stage-Gives w (inl e) h k = tt
stage-Gives w (inr (a, db)) h k =
    let same : IsConsistent (record w.db { next_event = db.next_event; next_peer = db.next_peer }) =
      record { keys = h.keys; nonce_keys = h.nonce_keys } in
    (same, (same, k))

-- A reservation keeps the tables consistent, whether it is a test or not, and whether it returns or
-- fails at any call of its transaction.
pub reserve_peer-Consistent :
    (peer : Peer) (test : Bool) → Keeps Consistent (reserve_peer peer test)
unfolding reserve_peer pending
reserve_peer-Consistent peer test = Keeps-Triple _ (
    Triple-bind _ _ (Triple-Keeps _ (Keeps-acquire Consistent-IsStable)) λ _.
      Triple-bind _ _ (Triple-Keeps _ (Keeps-call _ _ Consistent-IsStable (λ a w h. h))) λ _.
        Triple-bind _ _
          (Triple-execute Consistent BothConsistent _ Consistent-IsStable
            (λ now w h. stage-Gives w _ h (insert_peer-Preserves peer now w.db h)))
          λ r. Triple-weaken Consistent _ (both r) (λ w h. h.0))
  where
    both :
        (r : ℕ × Db)
        → Keeps
            (BothConsistent r)
            ((if test then plain else commit_transaction r.1) >> pure (r.0 == 1))
    both r =
        let stable : IsStable (BothConsistent r) = record { advances = λ w h. h } in
        Keeps-bind _ _
          (Keeps-if test _ _ (λ _. Keeps-call _ _ stable (λ a w h. h))
            (λ _. Keeps-call _ _ stable (λ a w h. (h.1, h.1))))
          (λ _. Keeps-pure _)
