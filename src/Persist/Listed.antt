-- ===== src/Persist/Listed.antt =====
-- src/persist.rs: the changes that are listed are the events that are stored.
use dn42_autopeer.Base.{
  ℕ, ◌≡◌, refl, subst, List, [], ◌∷◌, any, Bool, true, ◌⊎◌, inl, inr, arith, ◌==◌, nat_eq,
  Bool-cases,
}
use dn42_autopeer.Result.{ok, bind_ok}
use dn42_autopeer.External.{External}
use dn42_autopeer.World.Types.{EventRow}
use dn42_autopeer.Persist.Rows.{PeerChange, row_to_peer, rows_to_changes}
use dn42_autopeer.Persist.Peers.{insert_event, sort_events}

abbrev pub has_event : ℕ → List EventRow → Bool
has_event id events = any (λ (e : EventRow). e.event_id == id) events

-- One of the changes has the number.
abbrev pub IsListed : ℕ → List PeerChange → Type 0
IsListed id [] = ⊥
IsListed id (change ∷ changes) = (change.event_id ≡ id) ⊎ IsListed id changes

has_event-insert :
    (id : ℕ) (e : EventRow) (events : List EventRow)
    → has_event id (insert_event e events) ≡ has_event id (e ∷ events)
unfolding insert_event
has_event-insert id e [] = refl
has_event-insert id e (d ∷ events) = ground (arith, has_event-insert id e events)

pub has_event-sort :
    (id : ℕ) (events : List EventRow) → has_event id (sort_events events) ≡ has_event id events
unfolding sort_events
has_event-sort id [] = refl
has_event-sort id (e ∷ events) =
    ground (arith, has_event-insert id e (sort_events events), has_event-sort id events)

module _ ⦃lib : External⦄ where
  pub rows_to_changes-IsListed :
      (id : ℕ) (rows : List EventRow) (changes : List PeerChange)
      → rows_to_changes rows ≡ ok changes
      → has_event id rows ≡ true
      → IsListed id changes
  unfolding rows_to_changes
  rows_to_changes-IsListed id [] changes e h = ground (arith, h)
  rows_to_changes-IsListed id (row ∷ rows) changes e h =
      let (peer, _, rest) = bind_ok (row_to_peer row.snapshot) _ changes e in
      let (found, f, last) = bind_ok (rows_to_changes rows) _ changes rest in
      let same : record { event_id = row.event_id; operation = row.operation; peer = peer } ∷ found
          ≡ changes =
        ground (arith, last) in
      subst (IsListed id) same (elim (Bool-cases (row.event_id == id)) [
        | inl q ↦ inl ((nat_eq.beq_iff row.event_id id).0 q)
        | inr q ↦ inr (rows_to_changes-IsListed id rows found f (ground (arith, q, h)))
      ])
