-- ===== src/Manager/Search/Goal.antt =====
-- src/manager.rs: which ports are taken, and what a search for a port is to find.
use dn42_autopeer.Base.{
  ℕ, ◌≤◌, ◌<◌, ◌≡◌, ◌≢◌, List, [], ◌∷◌, ◌++◌, any, Bool, true, false, ◌&&◌, ◌||◌, ◌⊎◌, ◌==◌, nat_eq,
  text_eq,
}
use dn42_autopeer.Base.Int.{u32_as_i32, widen, int_eq}
use dn42_autopeer.Base.Text.{Text, text}
use dn42_autopeer.Error.{PeerError}
use dn42_autopeer.Result.{Result, ok, err}
use dn42_autopeer.Peer.{Peer}
use dn42_autopeer.World.Types.{World, Row}
use dn42_autopeer.Persist.{peer_to_row}
use dn42_autopeer.Netlink.InUse.{listens}
use dn42_autopeer.Manager.Create.{candidate_port}

-- What the search says when it has tried all ports.
abbrev pub no_free_port : PeerError
no_free_port =
    PeerError.validation (text "No WireGuard listen port is available from 20000 through 29999")

module _ (before : World) (asn : ℕ) (name : Text) where
  -- A row that a new peer with this port cannot stand beside.
  abbrev pub clashes : ℕ → Row → Bool
  clashes port row =
      u32_as_i32 before.db.next_peer == row.peer_id
      || (widen port == row.listen_port || (widen asn == row.asn && name == row.peer_name))

  -- No row of the table is in the way of the port.
  abbrev pub IsVacant : ℕ → Type 0
  IsVacant port = any (clashes port) before.db.peers ≡ false

  -- A device listens on the port, or a row of the table is in its way.
  abbrev pub IsTaken : ℕ → Type 0
  IsTaken port = (listens port before.links ≡ true) ⊎ (any (clashes port) before.db.peers ≡ true)

-- An error of a call, which is not the end of the search.
abbrev pub IsOther : PeerError → World → Type 0
IsOther e w = e ≢ no_free_port

-- Unless the creation is a test, the row of the peer stands behind those that were there.
abbrev pub IsStored : World → Bool → Peer → List Row → Type 0
IsStored before true peer rows = Unit
IsStored before false peer rows = (now : ℕ) × (rows ≡ before.db.peers ++ peer_to_row now peer ∷ [])

-- What the reservation of a port finds. A peer that it returns has the first port, in the order
-- from the preferred one, that no device listens on and no row has; an error that says that no port
-- is free means that each of the ports is taken.
abbrev pub IsSearched : World → ℕ → Text → Bool → Result Peer → World → Type 0
IsSearched before asn name own (ok peer) after =
    (increment : ℕ) × (increment < 10000)
    × (peer.listen_port ≡ candidate_port asn increment)
    × IsVacant before asn name peer.listen_port
    × IsStored before own peer after.db.peers
    × ((i : ℕ) → i < increment → IsTaken before asn name (candidate_port asn i))
IsSearched before asn name own (err e) after =
    (e ≢ no_free_port) ⊎ ((port : ℕ) → 20000 ≤ port → port < 30000 → IsTaken before asn name port)
