-- ===== src/Persist/Peers.antt =====
-- src/persist.rs: the tables `peers` and `peer_change_events`, and the trigger between them.
use dn42_autopeer.Base.{
  ℕ, suc, List, [], ◌∷◌, ◌++◌, map, Bool, true, false, not, ◌&&◌, ◌||◌, ◌⊎◌, inl, inr, keep, any,
  first, length, ◌==◌, nat_eq, text_eq, if◌then◌else◌, ltb, leb, Option, some, ◌^◌,
}
use dn42_autopeer.Base.Int.{pos, widen, ltb_ℤ, int_eq, u32_as_i32, i32_as_u16, try_u32}
use dn42_autopeer.Base.Text.{Text, text}
use dn42_autopeer.Error.{PeerError, SqlError}
use dn42_autopeer.Result.{ok_or, traverse}
use dn42_autopeer.External.{External}
use dn42_autopeer.Ipv6.{display}
use dn42_autopeer.WgPubKey.{as_str}
use dn42_autopeer.Peer.{Peer, PeerStatus}
use dn42_autopeer.World.Types.{Db, Row, EventRow}
use dn42_autopeer.World.Action.{
  Action, Statement, pure, lift, acquire, execute, call, sql_error, ◌>>=◌, ◌>>◌,
}
use dn42_autopeer.Persist.Rows.{
  status_to_str, row_to_peer, rows_to_peers, peer_to_row, PeerChange, rows_to_changes,
}

-- `autopeer_enqueue_peer_change`: one event for each row that a statement inserts, updates or
-- deletes, in order, numbered by the sequence of its key.
unfoldable pub enqueue : Text → List Row → Db → Db
enqueue operation [] db = db
enqueue operation (row ∷ rows) db = enqueue operation rows (record db {
  events =
      db.events ++ record { event_id = db.next_event; operation = operation; snapshot = row } ∷ [];
  next_event = suc db.next_event;
})

-- The unique keys of `peers`: the ID, the port, and the ASN with the name.
unfoldable pub conflicts : Row → Row → Bool
conflicts a b =
    a.peer_id == b.peer_id
    || (a.listen_port == b.listen_port || (a.asn == b.asn && a.peer_name == b.peer_name))

-- `peer_name VARCHAR(32)`
abbrev pub too_long : Text → Bool
too_long name = ltb 32 (length name)

-- "INSERT INTO peers … ON CONFLICT DO NOTHING", with the number of rows written.
unfoldable pub insert_peer : Peer → Statement ℕ
insert_peer peer now db =
    let row = peer_to_row now peer in
    if too_long peer.peer_name
    then inl (
        SqlError.database (some (text "22001"))
          (text "value too long for type character varying(32)"))
    else if any (conflicts row) db.peers
    then inr (0, db)
    else inr (1, enqueue (text "INSERT") (row ∷ []) (record db { peers = db.peers ++ row ∷ [] }))

-- A statement inside a transaction: the tables stay as they are, the sequences move, and the
-- database to commit comes back beside the result.
unfoldable pub stage : {A : Type 0} → SqlError ⊎ (A × Db) → Db → SqlError ⊎ ((A × Db) × Db)
stage (inl e) db = inl e
stage (inr (a, db')) db =
    inr ((a, db'), record db { next_event = db'.next_event; next_peer = db'.next_peer })

unfoldable pub pending : {A : Type 0} → Statement A → Statement (A × Db)
unfolding stage
pending q now db = stage (q now db) db

abbrev pub commit_transaction : Db → Action Unit
commit_transaction db = call (λ a w. record w { db = db }) sql_error

abbrev pub plain : Action Unit
plain = call (λ a w. w) sql_error

unfoldable pub reserve_peer : Peer → Bool → Action Bool
reserve_peer peer test = do
  acquire
  plain
  (rows, db) ← execute (pending (insert_peer peer))
  if test then plain else commit_transaction db
  pure (rows == 1)

-- "SELECT nextval('peers_peer_id_seq')". The sequence of a SERIAL column counts up to 2 ^ 31 - 1.
unfoldable pub next_peer_id : Statement ℕ
next_peer_id now db =
    if ltb db.next_peer (2 ^ 31)
    then inr (db.next_peer, record db { next_peer = suc db.next_peer })
    else inl (
        SqlError.database (some (text "2200H")) (text "nextval: reached maximum value of sequence"))

unfoldable pub allocate_peer_id : Action ℕ
allocate_peer_id = do
  acquire
  peer_id ← execute next_peer_id
  lift (
      ok_or (try_u32 (pos peer_id))
        (PeerError.validation (text "The peer ID sequence is exhausted")))

abbrev pub has_id : ℕ → Row → Bool
has_id peer_id row = row.peer_id == u32_as_i32 peer_id

-- "UPDATE peers SET … WHERE peer_id = $1" of `update_peer_desired`, on one row.
unfoldable pub desired_row : ℕ → Peer → Row → Row
desired_row now peer row = record row {
  iface_name = peer.iface_name;
  pubkey = as_str peer.pubkey;
  endpoint = peer.endpoint;
  local_ll_ip = display peer.local_ll_ip;
  remote_ll_ip = display peer.remote_ll_ip;
  status = text "provisioning";
  listen_port = widen peer.listen_port;
  mtu = widen peer.mtu;
  updated_at = now;
}

-- The rows that pass a test, changed.
unfoldable pub update_rows : (Row → Bool) → (Row → Row) → List Row → List Row
update_rows p f [] = []
update_rows p f (row ∷ rows) =
    let rest = update_rows p f rows in if p row then f row ∷ rest else row ∷ rest

-- The update of `update_peer_desired`: the new port may be that of another row.
unfoldable pub store_desired : Peer → Statement ℕ
store_desired peer now db =
    let hit = keep (has_id peer.peer_id) db.peers in
    let taken : Bool =
      any (λ r. not (has_id peer.peer_id r) && r.listen_port == widen peer.listen_port) db.peers in
    if 0 == length hit
    then inr (0, db)
    else if taken
    then inl (
        SqlError.database (some (text "23505"))
          (text "duplicate key value violates unique constraint \"peers_listen_port_key\""))
    else inr (
      length hit,
      enqueue (text "UPDATE") (map (desired_row now peer) hit)
          (record db { peers = update_rows (has_id peer.peer_id) (desired_row now peer) db.peers }),
    )

unfoldable pub update_peer_desired : Peer → Action Bool
update_peer_desired peer = do acquire; rows ← execute (store_desired peer); pure (rows == 1)

unfoldable pub status_row : ℕ → Text → Row → Row
status_row now status row = record row { status = status; updated_at = now }

-- "UPDATE peers SET status = $2, updated_at = CURRENT_TIMESTAMP WHERE peer_id = $1"
unfoldable pub store_status : ℕ → Text → Statement ℕ
store_status peer_id status now db =
    let hit = keep (has_id peer_id) db.peers in
    inr (
      length hit,
      enqueue (text "UPDATE") (map (status_row now status) hit)
          (record db { peers = update_rows (has_id peer_id) (status_row now status) db.peers }),
    )

unfoldable pub set_status : ℕ → PeerStatus → Action Bool
set_status peer_id status = do
  acquire
  rows ← execute (store_status peer_id (status_to_str status))
  pure (rows == 1)

-- "DELETE FROM peers WHERE peer_id = $1"
unfoldable pub remove_peer : ℕ → Statement ℕ
remove_peer peer_id now db =
    let hit = keep (has_id peer_id) db.peers in
    inr (
      length hit,
      enqueue (text "DELETE") hit
          (record db { peers = keep (λ r. not (has_id peer_id r)) db.peers }),
    )

unfoldable pub delete_peer : ℕ → Action Bool
delete_peer peer_id = do acquire; rows ← execute (remove_peer peer_id); pure (ltb 0 rows)

-- A `SELECT`: the tables are read and stay.
abbrev pub select : {A : Type 0} → (Db → A) → Statement A
select view now db = inr (view db, db)

abbrev pub is_named : ℕ → Text → Row → Bool
is_named asn name row = row.asn == widen asn && row.peer_name == name

unfoldable pub peer_exists : ℕ → Text → Action Bool
peer_exists asn name = do acquire; execute (select (λ db. any (is_named asn name) db.peers))

unfoldable pub insert_event : EventRow → List EventRow → List EventRow
insert_event e [] = e ∷ []
insert_event e (d ∷ events) =
    let rest = insert_event e events in
    if leb e.event_id d.event_id then e ∷ d ∷ events else d ∷ rest

-- "ORDER BY event_id"
unfoldable pub sort_events : List EventRow → List EventRow
unfolding insert_event
sort_events [] = []
sort_events (e ∷ events) = insert_event e (sort_events events)

-- `text < text`, code point by code point.
unfoldable pub text_lt : Text → Text → Bool
text_lt [] [] = false
text_lt [] (d ∷ t) = true
text_lt (c ∷ s) [] = false
text_lt (c ∷ s) (d ∷ t) = ltb c d || (c == d && text_lt s t)

-- "ORDER BY asn, peer_name"
unfoldable pub precedes : Row → Row → Bool
precedes a b = ltb_ℤ a.asn b.asn || (a.asn == b.asn && not (text_lt b.peer_name a.peer_name))

insert_row : Row → List Row → List Row
insert_row row [] = row ∷ []
insert_row row (r ∷ rows) =
    let rest = insert_row row rows in if precedes row r then row ∷ r ∷ rows else r ∷ rest

unfoldable pub sort_rows : List Row → List Row
unfolding insert_row
sort_rows [] = []
sort_rows (row ∷ rows) = insert_row row (sort_rows rows)

-- A row of the list that the API shows.
pub record PeerInfo : Type 0 where
  pub peer_name : Text
  pub pubkey : Text
  pub endpoint : Option Text
  pub local_ll_ip : Text
  pub remote_ll_ip : Text
  pub status : Text
  pub listen_port : ℕ
  pub mtu : ℕ
  pub created_at : ℕ
  pub updated_at : ℕ

unfoldable pub row_to_info : Row → PeerInfo
row_to_info row = record {
  peer_name = row.peer_name;
  pubkey = row.pubkey;
  endpoint = row.endpoint;
  local_ll_ip = row.local_ll_ip;
  remote_ll_ip = row.remote_ll_ip;
  status = row.status;
  listen_port = i32_as_u16 row.listen_port;
  mtu = i32_as_u16 row.mtu;
  created_at = row.created_at;
  updated_at = row.updated_at;
}

-- The rows of one ASN are ordered by name.
unfoldable pub get_peer_infos_by_asn : ℕ → Action (List PeerInfo)
get_peer_infos_by_asn asn = do
  acquire
  rows ← execute (select (λ db. sort_rows (keep (λ r. r.asn == widen asn) db.peers)))
  pure (map row_to_info rows)

module _ ⦃lib : External⦄ where
  unfoldable pub get_peer : ℕ → Text → Action (Option Peer)
  get_peer asn name = do
    acquire
    row ← execute (select (λ db. first (keep (is_named asn name) db.peers)))
    lift (traverse row_to_peer row)

  unfoldable pub get_peer_by_id : ℕ → Action (Option Peer)
  get_peer_by_id peer_id = do
    acquire
    row ← execute (select (λ db. first (keep (has_id peer_id) db.peers)))
    lift (traverse row_to_peer row)

  unfoldable pub list_peers : Action (List Peer)
  list_peers = do
    acquire
    rows ← execute (select (λ db. sort_rows db.peers))
    lift (rows_to_peers rows)

  unfoldable pub list_peer_changes : Action (List PeerChange)
  list_peer_changes = do
    acquire
    rows ← execute (select (λ db. sort_events db.events))
    lift (rows_to_changes rows)

-- "DELETE FROM peer_change_events WHERE event_id = $1"
unfoldable pub remove_event : ℕ → Statement ℕ
remove_event event_id now db = inr (
  length (keep (λ (e : EventRow). e.event_id == event_id) db.events),
  record db { events = keep (λ (e : EventRow). not (e.event_id == event_id)) db.events },
)

unfoldable pub delete_peer_change : ℕ → Action Bool
delete_peer_change event_id = do acquire; rows ← execute (remove_event event_id); pure (rows == 1)
