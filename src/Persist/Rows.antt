-- ===== src/Persist/Rows.antt =====
-- src/persist.rs: the rows of `peers`, their encoding by `bind` and their decoding.
use dn42_autopeer.Base.{ℕ, ◌++◌, List, [], ◌∷◌, Option, none, some, ◌==◌, text_eq, if◌then◌else◌}
use dn42_autopeer.Base.Int.{u32_as_i32, widen, try_u32, try_u16}
use dn42_autopeer.Base.Text.{Text, text}
use dn42_autopeer.Base.Decimal.{decimal}
use dn42_autopeer.Ipv6.{display, parse_ipv6}
use dn42_autopeer.Error.{PeerError}
use dn42_autopeer.Result.{Result, ok, ok_or, ◌>>=◌}
use dn42_autopeer.External.{External}
use dn42_autopeer.WgPubKey.{try_from, as_str}
use dn42_autopeer.Peer.{Peer, PeerStatus}
use dn42_autopeer.World.Types.{Row, EventRow}

unfoldable pub status_to_str : PeerStatus → Text
status_to_str PeerStatus.provisioning = text "provisioning"
status_to_str PeerStatus.active = text "active"
status_to_str PeerStatus.deleting = text "deleting"
status_to_str PeerStatus.disabled = text "disabled"
status_to_str (PeerStatus.error message) = text "error"

unfoldable pub str_to_status : Text → PeerStatus
str_to_status status =
    if status == text "provisioning"
    then PeerStatus.provisioning
    else if status == text "active"
    then PeerStatus.active
    else if status == text "deleting"
    then PeerStatus.deleting
    else if status == text "disabled"
    then PeerStatus.disabled
    else PeerStatus.error (text "unknown database status: " ++ status)

abbrev invalid {ℓ} : {A : Type ℓ} → Option A → Text → Result A
invalid o detail = ok_or o (PeerError.validation detail)

-- A number that does not fit an MTU is read as the default.
mtu_or_default : Option ℕ → ℕ
mtu_or_default none = 1420
mtu_or_default (some n) = n

module _ ⦃lib : External⦄ where
  unfoldable pub row_to_peer : Row → Result Peer
  unfolding mtu_or_default
  row_to_peer row = do
    peer_id ← invalid (try_u32 row.peer_id) (text "The database contains an invalid peer ID")
    asn ← invalid (try_u32 row.asn) (text "The database contains an invalid ASN")
    pubkey ← try_from row.pubkey
    local_ll_ip ←
        invalid (parse_ipv6 row.local_ll_ip)
          (text "The database contains an invalid local address for AS" ++ decimal asn)
    remote_ll_ip ←
        invalid (parse_ipv6 row.remote_ll_ip)
          (text "The database contains an invalid remote address for AS" ++ decimal asn)
    listen_port ←
        invalid (try_u16 row.listen_port)
          (text "The database contains an invalid listen port for AS" ++ decimal asn)
    ok (record {
      peer_id = peer_id;
      peer_name = row.peer_name;
      iface_name = row.iface_name;
      asn = asn;
      pubkey = pubkey;
      endpoint = row.endpoint;
      local_ll_ip = local_ll_ip;
      remote_ll_ip = remote_ll_ip;
      status = str_to_status row.status;
      listen_port = listen_port;
      mtu = mtu_or_default (try_u16 row.mtu);
    })

  -- `rows.into_iter().map(row_to_peer).collect()`: the first error ends it.
  unfoldable pub rows_to_peers : List Row → Result (List Peer)
  rows_to_peers [] = ok []
  rows_to_peers (row ∷ rows) = do
    peer ← row_to_peer row
    peers ← rows_to_peers rows
    ok (peer ∷ peers)

-- The row that the `INSERT` of `reserve_peer` binds.
unfoldable pub peer_to_row : ℕ → Peer → Row
peer_to_row now peer = record {
  peer_id = u32_as_i32 peer.peer_id;
  asn = widen peer.asn;
  peer_name = peer.peer_name;
  iface_name = peer.iface_name;
  pubkey = as_str peer.pubkey;
  endpoint = peer.endpoint;
  local_ll_ip = display peer.local_ll_ip;
  remote_ll_ip = display peer.remote_ll_ip;
  status = text "provisioning";
  listen_port = widen peer.listen_port;
  mtu = widen peer.mtu;
  created_at = now;
  updated_at = now;
}

pub record PeerChange : Type 0 where
  pub event_id : ℕ
  pub operation : Text
  pub peer : Peer

module _ ⦃lib : External⦄ where
  -- The map and `collect` of `list_peer_changes`.
  unfoldable pub rows_to_changes : List EventRow → Result (List PeerChange)
  rows_to_changes [] = ok []
  rows_to_changes (e ∷ rest) = do
    peer ← row_to_peer e.snapshot
    changes ← rows_to_changes rest
    ok (record { event_id = e.event_id; operation = e.operation; peer = peer } ∷ changes)
