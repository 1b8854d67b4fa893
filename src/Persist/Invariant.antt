-- ===== src/Persist/Invariant.antt =====
-- src/persist.rs: the constraints of the tables hold after every statement.
use dn42_autopeer.Base.{
  ℕ, ◌≡◌, refl, List, [], ◌∷◌, ◌++◌, Bool, true, false, not, ◌&&◌, ◌||◌, keep, any, inl, inr, ◌==◌,
  arith, beq_comm, nat_eq, length, ltb, ◌^◌, Bool-cases, text_eq,
}
use dn42_autopeer.Base.Int.{ℤ, int_eq, widen, u32_as_i32}
use dn42_autopeer.Base.Text.{Text}
use dn42_autopeer.Peer.{Peer}
use dn42_autopeer.World.Types.{Db, Row, NonceRow}
use dn42_autopeer.World.Action.{Statement}
use dn42_autopeer.World.Keeps.{Leaves}
use dn42_autopeer.Persist.Rows.{peer_to_row}
use dn42_autopeer.Persist.Nonces.{delete_expired, add_nonce, redeem}
use dn42_autopeer.Persist.Peers.{
  conflicts, enqueue, insert_peer, update_rows, store_status, store_desired, desired_row,
  remove_peer, next_peer_id, remove_event, has_id, too_long, status_row,
}

-- No two rows of `peers` share an ID, a port, or an ASN and a name.
abbrev pub NoConflicts : List Row → Type 0
NoConflicts [] = Unit
NoConflicts (r ∷ rs) = (any (conflicts r) rs ≡ false) × NoConflicts rs

-- No two rows of `auth_nonces` share their nonce.
abbrev pub NoReuse : List NonceRow → Type 0
NoReuse [] = Unit
NoReuse (n ∷ ns) = (any (λ r. r.nonce == n.nonce) ns ≡ false) × NoReuse ns

pub record IsConsistent (db : Db) : Type 0 where
  pub keys : NoConflicts db.peers
  pub nonce_keys : NoReuse db.nonces

conflicts_sym : (a b : Row) → conflicts a b ≡ conflicts b a
unfolding conflicts
conflicts_sym a b = cc (
  beq_comm a.peer_id b.peer_id,
  beq_comm a.listen_port b.listen_port,
  beq_comm a.asn b.asn,
  beq_comm a.peer_name b.peer_name,
)

-- A filter keeps a test false.
any-keep {ℓ} :
    {A : Type ℓ} (p q : A → Bool) (xs : List A) → any p xs ≡ false → any p (keep q xs) ≡ false
any-keep p q [] h = refl
any-keep p q (x ∷ xs) h = ground (arith, any-keep p q xs)

pub keep-NoConflicts : (q : Row → Bool) (rs : List Row) → NoConflicts rs → NoConflicts (keep q rs)
keep-NoConflicts q [] h = tt
keep-NoConflicts q (r ∷ rs) h =
    ground (arith, any-keep (conflicts r) q rs h.0, keep-NoConflicts q rs h.1)

pub keep-NoReuse : (q : NonceRow → Bool) (ns : List NonceRow) → NoReuse ns → NoReuse (keep q ns)
keep-NoReuse q [] h = tt
keep-NoReuse q (n ∷ ns) h =
    ground (arith, any-keep (λ (r : NonceRow). r.nonce == n.nonce) q ns h.0, keep-NoReuse q ns h.1)

any-append {ℓ} :
    {A : Type ℓ} (p : A → Bool) (xs ys : List A) → any p (xs ++ ys) ≡ (any p xs || any p ys)
any-append p [] ys = refl
any-append p (x ∷ xs) ys = ground (arith, any-append p xs ys)

append-NoConflicts :
    (rs : List Row) (row : Row)
    → NoConflicts rs
    → any (conflicts row) rs ≡ false
    → NoConflicts (rs ++ row ∷ [])
append-NoConflicts [] row h free = (refl, tt)
append-NoConflicts (r ∷ rs) row h free = ground (
  arith,
  any-append (conflicts r) rs (row ∷ []),
  conflicts_sym row r,
  append-NoConflicts rs row h.1,
)

-- A change that leaves the keys of a row as they are.
module _ (p : Row → Bool) (f : Row → Row)
    (same : (x y : Row) → conflicts x (f y) ≡ conflicts x y) where
  any-update_rows :
      (r : Row) (rs : List Row) → any (conflicts r) (update_rows p f rs) ≡ any (conflicts r) rs
  unfolding update_rows
  any-update_rows r [] = refl
  any-update_rows r (x ∷ rs) = ground (arith, same r x, any-update_rows r rs)

  any-changed : (r : Row) (rs : List Row) → any (conflicts (f r)) rs ≡ any (conflicts r) rs
  any-changed r [] = refl
  any-changed r (x ∷ rs) =
      ground (arith, conflicts_sym (f r) x, same x r, conflicts_sym x r, any-changed r rs)

  update_rows-NoConflicts : (rs : List Row) → NoConflicts rs → NoConflicts (update_rows p f rs)
  unfolding update_rows
  update_rows-NoConflicts [] h = tt
  update_rows-NoConflicts (r ∷ rs) h = ground (
    arith,
    any-update_rows r rs,
    any-update_rows (f r) rs,
    any-changed r rs,
    update_rows-NoConflicts rs h.1,
  )

or_replace : (a b c d : Bool) → (a || (b || c)) ≡ false → d ≡ false → (a || (d || c)) ≡ false
or_replace a b c d h k = ground arith

-- The update of `update_peer_desired` moves one row to a port that no other row has.
module _ (now : ℕ) (peer : Peer) where
  is_taken : Row → Bool
  is_taken r = not (has_id peer.peer_id r) && r.listen_port == widen peer.listen_port

  conflicts-desired :
      (r x : Row)
      → conflicts r x ≡ false
      → (r.listen_port == widen peer.listen_port) ≡ false
      → conflicts r (desired_row now peer x) ≡ false
  unfolding conflicts desired_row
  conflicts-desired r x h k = or_replace _ _ _ _ h k

  others-miss :
      (r : Row) (rs : List Row)
      → has_id peer.peer_id r ≡ true
      → any (conflicts r) rs ≡ false
      → any (has_id peer.peer_id) rs ≡ false
  unfolding conflicts
  others-miss r [] hit free = refl
  others-miss r (x ∷ rs) hit free = ground (
    arith,
    int_eq.beq_iff r.peer_id (u32_as_i32 peer.peer_id),
    int_eq.beq_iff x.peer_id (u32_as_i32 peer.peer_id),
    int_eq.beq_iff r.peer_id x.peer_id,
    others-miss r rs hit,
  )

  any-desired :
      (r : Row) (rs : List Row)
      → any (conflicts r) rs ≡ false
      → (r.listen_port == widen peer.listen_port) ≡ false
      → any (conflicts r) (update_rows (has_id peer.peer_id) (desired_row now peer) rs) ≡ false
  unfolding update_rows
  any-desired r [] free k = refl
  any-desired r (x ∷ rs) free k = ground (arith, conflicts-desired r x, any-desired r rs)

  update_rows-miss :
      (rs : List Row)
      → any (has_id peer.peer_id) rs ≡ false
      → update_rows (has_id peer.peer_id) (desired_row now peer) rs ≡ rs
  unfolding update_rows
  update_rows-miss [] h = refl
  update_rows-miss (r ∷ rs) h = ground (arith, update_rows-miss rs)

  any-moved :
      (r : Row) (rs : List Row)
      → any (conflicts r) rs ≡ false
      → any (has_id peer.peer_id) rs ≡ false
      → any is_taken rs ≡ false
      → any (conflicts (desired_row now peer r)) rs ≡ false
  unfolding is_taken
  any-moved r [] free miss taken = refl
  any-moved r (x ∷ rs) free miss taken = ground (
    arith,
    conflicts_sym (desired_row now peer r) x,
    conflicts_sym r x,
    conflicts-desired x r,
    any-moved r rs,
  )

  desired-NoConflicts :
      (rs : List Row)
      → NoConflicts rs
      → any is_taken rs ≡ false
      → NoConflicts (update_rows (has_id peer.peer_id) (desired_row now peer) rs)
  unfolding update_rows is_taken
  desired-NoConflicts [] h taken = tt
  desired-NoConflicts (r ∷ rs) h taken = elim (Bool-cases (has_id peer.peer_id r)) [
    | inl hit ↦
        let miss = others-miss r rs hit h.0 in
        ground (arith, any-moved r rs h.0 miss, update_rows-miss rs miss)
    | inr miss ↦ ground (arith, any-desired r rs h.0, desired-NoConflicts rs h.1)
  ]

-- The events and the sequence change, and the tables `peers` and `auth_nonces` do not.
pub enqueue-tables :
    (operation : Text) (rows : List Row) (db : Db)
    → ((enqueue operation rows db).peers ≡ db.peers)
      × ((enqueue operation rows db).nonces ≡ db.nonces)
unfolding enqueue
enqueue-tables operation [] db = (refl, refl)
enqueue-tables operation (row ∷ rows) db = enqueue-tables operation rows _

enqueue-IsConsistent :
    (operation : Text) (rows : List Row) (db : Db)
    → IsConsistent db
    → IsConsistent (enqueue operation rows db)
enqueue-IsConsistent operation rows db h = record {
  keys = rw ((enqueue-tables operation rows db).0) h.keys;
  nonce_keys = rw ((enqueue-tables operation rows db).1) h.nonce_keys;
}

-- A statement leaves a consistent database consistent.
abbrev pub Preserves : {A : Type 0} → Statement A → Type 0
Preserves q = (now : ℕ) (db : Db) → IsConsistent db → Leaves IsConsistent (q now db)

pub delete_expired-Preserves : (limit : ℤ) → Preserves (delete_expired limit)
unfolding delete_expired
delete_expired-Preserves limit now db h = record {
  keys = h.keys;
  nonce_keys = keep-NoReuse _ db.nonces h.nonce_keys;
}

pub add_nonce-Preserves :
    (nonce : Text) (asn expires_at : ℤ) → Preserves (add_nonce nonce asn expires_at)
unfolding add_nonce
add_nonce-Preserves nonce asn expires_at now db h =
    elim (Bool-cases (any (λ (r : NonceRow). r.nonce == nonce) db.nonces)) [
      | inl used ↦ rw used h
      | inr fresh ↦ rw fresh (record { keys = h.keys; nonce_keys = (fresh, h.nonce_keys) })
    ]

pub redeem-Preserves :
    (nonce : Text) (asn expires_at clock : ℤ) → Preserves (redeem nonce asn expires_at clock)
unfolding redeem
redeem-Preserves nonce asn expires_at clock now db h = record {
  keys = h.keys;
  nonce_keys = keep-NoReuse _ db.nonces h.nonce_keys;
}

pub insert_peer-Preserves : (peer : Peer) → Preserves (insert_peer peer)
unfolding insert_peer
insert_peer-Preserves peer now db h = elim (Bool-cases (too_long peer.peer_name)) [
  | inl long ↦ rw long tt
  | inr fits ↦ elim (Bool-cases (any (conflicts (peer_to_row now peer)) db.peers)) [
    | inl taken ↦ rw (fits, taken) h
    | inr free ↦
        rw (fits, free)
          (enqueue-IsConsistent _ _ _ (record {
            keys = append-NoConflicts db.peers _ h.keys free;
            nonce_keys = h.nonce_keys;
          }))
  ]
]

conflicts-status :
    (now : ℕ) (status : Text) (x y : Row) → conflicts x (status_row now status y) ≡ conflicts x y
unfolding conflicts status_row
conflicts-status now status x y = refl

pub store_status-Preserves : (peer_id : ℕ) (status : Text) → Preserves (store_status peer_id status)
unfolding store_status
store_status-Preserves peer_id status now db h = enqueue-IsConsistent _ _ _ (record {
  keys = update_rows-NoConflicts _ _ (conflicts-status now status) db.peers h.keys;
  nonce_keys = h.nonce_keys;
})

pub store_desired-Preserves : (peer : Peer) → Preserves (store_desired peer)
unfolding store_desired is_taken
store_desired-Preserves peer now db h =
    elim (Bool-cases (0 == length (keep (has_id peer.peer_id) db.peers))) [
      | inl none_hit ↦ rw none_hit h
      | inr hit ↦ elim (Bool-cases (any (is_taken now peer) db.peers)) [
        | inl taken ↦ rw (hit, taken) tt
        | inr free ↦
            rw (hit, free)
              (enqueue-IsConsistent _ _ _ (record {
                keys = desired-NoConflicts now peer db.peers h.keys free;
                nonce_keys = h.nonce_keys;
              }))
      ]
    ]

pub remove_peer-Preserves : (peer_id : ℕ) → Preserves (remove_peer peer_id)
unfolding remove_peer
remove_peer-Preserves peer_id now db h =
    enqueue-IsConsistent _ _ _
      (record { keys = keep-NoConflicts _ db.peers h.keys; nonce_keys = h.nonce_keys })

pub next_peer_id-Preserves : Preserves next_peer_id
unfolding next_peer_id
next_peer_id-Preserves now db h = elim (Bool-cases (ltb db.next_peer (2 ^ 31))) [
  | inl room ↦ rw room (record { keys = h.keys; nonce_keys = h.nonce_keys })
  | inr full ↦ rw full tt
]

pub remove_event-Preserves : (event_id : ℕ) → Preserves (remove_event event_id)
unfolding remove_event
remove_event-Preserves event_id now db h = record { keys = h.keys; nonce_keys = h.nonce_keys }
