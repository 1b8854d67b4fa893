-- ===== src/Manager/Drain.antt =====
-- src/manager.rs: a sync that succeeds leaves none of the changes that it found.
use dn42_autopeer.Base.{
  ◌∙◌, ap, All, sym, subst, ℕ, ◌≡◌, refl, ◌<◌, List, [], ◌∷◌, ◌++◌, keep, not, Bool, true, false,
  inl, inr, Option, none, some, arith, ◌==◌, nat_eq, Bool-cases,
}
use dn42_autopeer.Base.Text.{Text}
use dn42_autopeer.Error.{PeerError}
use dn42_autopeer.Result.{ok}
use dn42_autopeer.External.{External}
use dn42_autopeer.Peer.{PeerStatus}
use dn42_autopeer.World.Types.{World, Db, EventRow, Row}
use dn42_autopeer.World.Keeps.{
  Keeps-elim_Result, Keeps-bind, Keeps-raise, Keeps-pure, Keeps-acquire, Keeps, IsStable,
  Keeps-execute, Keeps-outcome, keeps_rules,
}
use dn42_autopeer.World.Triple.{
  Triple-lift, Triple-fact, Triple-returned, Triple-Keeps, Triple-before, Triple-any, Triple-after,
  Triple-try, Triple-pure, Partial-execute, Triple-raise, Triple-bind, Partial, Partial-Keeps,
}
use dn42_autopeer.Persist.{
  sort_events, PeerChange, enqueue, store_status, remove_peer, remove_event, set_status,
  delete_peer, delete_peer_change, list_peer_changes,
}
use dn42_autopeer.Persist.Listed.{has_event, IsListed, has_event-sort, rows_to_changes-IsListed}
use dn42_autopeer.Manager.State.{PeerManager}
use dn42_autopeer.Manager.Changes.{apply_peer_change, sync_changes, sync_pending_peer_changes}
use dn42_autopeer.Manager.Apply.{apply_peer_change-Keeps}

-- The number of an event that was handed out is not handed out again.
abbrev pub IsIssued : ℕ → Db → Type 0
IsIssued id db = id < db.next_event

-- The event is gone, and does not come back.
abbrev pub IsDrained : ℕ → Db → Type 0
IsDrained id db = IsIssued id db × (has_event id db.events ≡ false)

module _ (id : ℕ) where
  has_event-append :
      (xs ys : List EventRow)
      → has_event id xs ≡ false
      → has_event id ys ≡ false
      → has_event id (xs ++ ys) ≡ false
  has_event-append [] ys h k = k
  has_event-append (x ∷ xs) ys h k = ground (arith, has_event-append xs ys)

  enqueue-IsIssued :
      (operation : Text) (rows : List Row) (db : Db)
      → IsIssued id db
      → IsIssued id (enqueue operation rows db)
  unfolding enqueue
  enqueue-IsIssued operation [] db h = h
  enqueue-IsIssued operation (row ∷ rows) db h =
      enqueue-IsIssued operation rows _ (omega (arith, h))

  enqueue-IsDrained :
      (operation : Text) (rows : List Row) (db : Db)
      → IsDrained id db
      → IsDrained id (enqueue operation rows db)
  unfolding enqueue
  enqueue-IsDrained operation [] db h = h
  enqueue-IsDrained operation (row ∷ rows) db h =
      enqueue-IsDrained operation rows _
        (omega (arith, h.0), has_event-append db.events _ h.1 (ground (arith, h.0)))

-- What the statements of a sync keep.
module _ (P : Db → Type 0)
    (enqueues : (operation : Text) (rows : List Row) (db : Db)
      → P db
      → P (enqueue operation rows db))
    (local : (db : Db) (rows : List Row) → P db → P (record db { peers = rows })) where
  stable : IsStable (λ w. P w.db)
  stable = record { advances = λ w h. h }

  sets : (id : ℕ) (status : PeerStatus) → Keeps (λ w. P w.db) (set_status id status)
  unfolding set_status store_status
  sets id status = search (keeps_rules, stable, Keeps-execute, enqueues, local) depth 9

  deletes : (id : ℕ) → Keeps (λ w. P w.db) (delete_peer id)
  unfolding delete_peer remove_peer
  deletes id = search (keeps_rules, stable, Keeps-execute, enqueues, local) depth 9

module _ (id : ℕ) where
  keep-has_event :
      (p : EventRow → Bool) (events : List EventRow)
      → has_event id events ≡ false
      → has_event id (keep p events) ≡ false
  keep-has_event p [] h = refl
  keep-has_event p (e ∷ events) h = ground (arith, keep-has_event p events)

  keep-not_event :
      (events : List EventRow)
      → has_event id (keep (λ (e : EventRow). not (e.event_id == id)) events) ≡ false
  keep-not_event [] = refl
  keep-not_event (e ∷ events) = ground (arith, keep-not_event events)

  delete-IsDrained : (n : ℕ) → Keeps (λ w. IsDrained id w.db) (delete_peer_change n)
  unfolding delete_peer_change remove_event
  delete-IsDrained n =
      let calm : IsStable (λ w. IsDrained id w.db) = record { advances = λ w h. h } in
      Keeps-bind _ _ (Keeps-acquire calm) λ _.
        Keeps-bind _ _ (Keeps-execute _ calm (λ now w h. (h.0, keep-has_event _ w.db.events h.1)))
          λ rows. Keeps-pure _

  IsIssued-IsStable : IsStable (λ w. IsIssued id w.db)
  IsIssued-IsStable = record { advances = λ w h. h }

  -- The event whose number it is goes.
  delete-Drains :
      (n : ℕ)
      → Partial
          (λ w. IsIssued id w.db)
          (delete_peer_change n)
          (λ _ w. IsIssued id w.db × ((n ≡ id) → IsDrained id w.db))
  unfolding delete_peer_change remove_event
  delete-Drains n = Triple-bind _ _ (Partial-Keeps _ (Keeps-acquire IsIssued-IsStable)) λ _.
      Triple-bind _ _
        (Partial-execute (λ _ w. IsIssued id w.db × ((n ≡ id) → IsDrained id w.db)) _
          IsIssued-IsStable
          (λ now w h. (
            h,
            λ e. (
              h,
              subst
                  (λ m.
                    has_event id (keep (λ (e : EventRow). not (e.event_id == m)) w.db.events)
                    ≡ false)
                  (sym e) (keep-not_event w.db.events),
            ),
          )))
        λ rows. Triple-pure _ (λ w h. h)

module _ ⦃lib : External⦄ (self : PeerManager) where
  -- A sync with an error ends in one.
  failed-sync :
      (changes : List PeerChange) (e : PeerError)
      → Partial (λ _. Unit) (sync_changes self changes (some e)) (λ _ _. ⊥)
  unfolding sync_changes
  failed-sync [] e = Triple-raise _ (λ w h. tt)
  failed-sync (change ∷ changes) e =
      let on = failed-sync changes e in
      Triple-try _ _ _ (Triple-any _) (λ _. Triple-try _ _ _ (Triple-any _) (λ _. on) (λ _. on))
        (λ _. on)

  module _ (id : ℕ) where
    apply-IsDrained :
        (change : PeerChange) → Keeps (λ w. IsDrained id w.db) (apply_peer_change self change)
    apply-IsDrained =
        apply_peer_change-Keeps (IsDrained id) self (sets _ (enqueue-IsDrained id) (λ db rows h. h))
          (deletes _ (enqueue-IsDrained id) (λ db rows h. h))

    apply-IsIssued :
        (change : PeerChange) → Keeps (λ w. IsIssued id w.db) (apply_peer_change self change)
    apply-IsIssued =
        apply_peer_change-Keeps (IsIssued id) self (sets _ (enqueue-IsIssued id) (λ db rows h. h))
          (deletes _ (enqueue-IsIssued id) (λ db rows h. h))

    sync_changes-IsDrained :
        (changes : List PeerChange) (first_error : Option PeerError)
        → Keeps (λ w. IsDrained id w.db) (sync_changes self changes first_error)
    unfolding sync_changes
    sync_changes-IsDrained [] none = Keeps-pure tt
    sync_changes-IsDrained [] (some e) = Keeps-raise e
    sync_changes-IsDrained (change ∷ changes) first_error =
        Keeps-bind _ _ (Keeps-outcome _ (apply-IsDrained change)) λ applied.
          Keeps-elim_Result applied _ _
            (λ _. Keeps-bind _ _ (Keeps-outcome _ (delete-IsDrained id _)) λ deleted.
              Keeps-elim_Result deleted _ _ (λ _. sync_changes-IsDrained changes _)
                (λ e. sync_changes-IsDrained changes _))
            (λ e. sync_changes-IsDrained changes _)

    sync_changes-Drains :
        (changes : List PeerChange)
        → IsListed id changes
        → Partial
            (λ w. IsIssued id w.db)
            (sync_changes self changes none)
            (λ _ w. IsDrained id w.db)
    unfolding sync_changes
    sync_changes-Drains [] h = absurd h
    sync_changes-Drains (change ∷ changes) h =
        Triple-try _ _ _ (Triple-Keeps _ (apply-IsIssued change))
          (λ _.
            Triple-try _ _ _ (delete-Drains id change.event_id)
              (λ _. rest (λ k. sync_changes-Drains changes k) h) (λ e. impossible e))
          (λ e. impossible e)
      where
        impossible :
            {P : World → Type 0} (e : PeerError)
            → Partial P (sync_changes self changes (some e)) (λ _ w. IsDrained id w.db)
        impossible e =
            Triple-after _ _ (λ a w no. absurd no)
              (Triple-before _ (λ w k. tt) (failed-sync changes e))

        rest :
            (IsListed id changes
              → Partial
                  (λ w. IsIssued id w.db)
                  (sync_changes self changes none)
                  (λ _ w. IsDrained id w.db))
            → IsListed id (change ∷ changes)
            → Partial
                (λ w. IsIssued id w.db × ((change.event_id ≡ id) → IsDrained id w.db))
                (sync_changes self changes none)
                (λ _ w. IsDrained id w.db)
        rest on (inl e) =
            Triple-before _ (λ w k. k.1 e) (Partial-Keeps _ (sync_changes-IsDrained changes none))
        rest on (inr e) = Triple-before _ (λ w k. k.0) (on e)

module _ ⦃lib : External⦄ where
  list_peer_changes-IsListed :
      (id : ℕ) (db : Db)
      → has_event id db.events ≡ true
      → Partial (λ w. w.db ≡ db) list_peer_changes (λ changes w. IsListed id changes × (w.db ≡ db))
  unfolding list_peer_changes
  list_peer_changes-IsListed id db h = Triple-bind _ _ (Partial-Keeps _ (Keeps-acquire same)) λ _.
      Triple-bind _ _
        (Partial-execute (λ rows w. (rows ≡ sort_events db.events) × (w.db ≡ db)) _ same
          (λ now w k. (ap (λ (d : Db). sort_events d.events) k, k)))
        λ rows. Triple-fact _ λ sorted.
          Triple-after _ _
            (λ changes w k. (
              rows_to_changes-IsListed id rows changes k.0
                  (ap (has_event id) sorted ∙ has_event-sort id db.events ∙ h),
              k.1,
            ))
            (Triple-lift _ (λ e w k. tt))
    where
      same : IsStable (λ w. w.db ≡ db)
      same = record { advances = λ w k. k }

-- A sync that succeeds has dealt with every change that it found: if the numbers of the events are
-- below the next one and `sync_pending_peer_changes` returns, then no event that was stored before
-- is stored after it.
pub sync_pending_peer_changes-drains :
    ⦃lib : External⦄ (self : PeerManager) (id : ℕ) (w : World)
    → All (λ (e : EventRow). e.event_id < w.db.next_event) w.db.events
    → has_event id w.db.events ≡ true
    → (sync_pending_peer_changes self w).0 ≡ ok tt
    → has_event id (sync_pending_peer_changes self w).1.db.events ≡ false
unfolding sync_pending_peer_changes
sync_pending_peer_changes-drains self id w ordered there returned =
    (Triple-returned _ w tt
      (Triple-bind _ _ (list_peer_changes-IsListed id w.db there) λ changes. Triple-fact _ λ listed.
        Triple-before _ (λ v e. subst (IsIssued id) (sym e) (below w.db.events ordered there))
          (sync_changes-Drains self id changes listed))
      refl returned).1
  where
    below :
        (events : List EventRow)
        → All (λ (e : EventRow). e.event_id < w.db.next_event) events
        → has_event id events ≡ true
        → IsIssued id w.db
    below [] o h = ground (arith, h)
    below (e ∷ events) o h = elim (Bool-cases (e.event_id == id)) [
      | inl q ↦ subst (λ n. n < w.db.next_event) ((nat_eq.beq_iff e.event_id id).0 q) o.0
      | inr q ↦ below events o.1 (ground (arith, q, h))
    ]
