-- ===== src/Manager/Search/Insert.antt =====
-- src/persist.rs: what `reserve_peer` leaves, with and without a row in the way.
use dn42_autopeer.Base.{
  some, ℕ, ◌≡◌, refl, sym, ap, subst, List, [], ◌∷◌, ◌++◌, any, Bool, true, false, ◌⊎◌, inl, inr,
  if◌then◌else◌, ◌==◌, nat_eq, text_eq,
}
use dn42_autopeer.Base.Int.{int_eq}
use dn42_autopeer.Base.Text.{text}
use dn42_autopeer.Error.{SqlError}
use dn42_autopeer.World.Action.{acquire, advance, sql_error}
use dn42_autopeer.World.Keeps.{IsStable}
use dn42_autopeer.Peer.{Peer}
use dn42_autopeer.World.Types.{World, Db, Row, Failure}
use dn42_autopeer.World.Keeps.{IsStable}
use dn42_autopeer.World.Triple.{Triple, Gives, Triple-bind, Triple-pure, Triple-if}
use dn42_autopeer.World.Calls.{Triple-call, Triple-statement}
use dn42_autopeer.Persist.{
  commit_transaction, plain, plain, commit_transaction, conflicts, insert_peer, peer_to_row,
  enqueue, pending, stage, reserve_peer, too_long,
}
use dn42_autopeer.Manager.DryRun.{sequences, IsUntouched, IsUntouched-IsStable, sequences}
use dn42_autopeer.Manager.Search.Goal.{IsOther, IsStored}

module _ (before : World) (test : Bool) (peer : Peer) where
  abbrev pub beside : Row → Bool
  beside = conflicts (peer_to_row 0 peer)

  -- The rows that the insertion wrote, and the database that its transaction would commit.
  abbrev IsInserted : ℕ × Db → World → Type 0
  IsInserted (rows, db) w =
      ((rows ≡ 0)
        × (any beside before.db.peers ≡ true)
        × IsUntouched before w
        × IsUntouched before (record w { db = db }))
      ⊎ ((rows ≡ 1) × (any beside before.db.peers ≡ false) × IsStored before false peer db.peers)

  -- The answer of the reservation.
  abbrev pub IsReserved : Bool → World → Type 0
  IsReserved true w = (any beside before.db.peers ≡ false) × IsStored before test peer w.db.peers
  IsReserved false w = (any beside before.db.peers ≡ true) × IsUntouched before w

  insert-Gives :
      (now : ℕ) (w : World)
      → IsUntouched before w
      → Gives (λ r db. IsInserted r (record w { db = db })) (pending (insert_peer peer) now w.db)
  unfolding pending stage insert_peer enqueue conflicts peer_to_row
  insert-Gives now w h = go (too_long peer.peer_name) (any beside w.db.peers) refl
    where
      row : Row
      row = peer_to_row now peer

      go :
          (long clash : Bool)
          → any beside w.db.peers ≡ clash
          → Gives
              (λ r db. IsInserted r (record w { db = db }))
              (stage
                (if long
                  then inl (
                      SqlError.database
                        (some (text "22001"))
                        (text "value too long for type character varying(32)"))
                  else if clash
                  then inr (0, w.db)
                  else inr (
                    1,
                    enqueue
                        (text "INSERT")
                        (row ∷ [])
                        (record w.db { peers = w.db.peers ++ row ∷ [] }),
                  ))
                w.db)
      go true clash e = tt
      go false true e = inl (
        refl,
        subst (λ rows. any beside rows ≡ true) h.peers e,
        sequences before w _ _ h,
        sequences before w _ _ h,
      )
      go false false e = inr (
        refl,
        subst (λ rows. any beside rows ≡ false) h.peers e,
        (now, ap (λ (rows : List Row). rows ++ row ∷ []) h.peers),
      )

  -- What the end of the transaction leaves.
  abbrev IsKept : ℕ → World → Type 0
  IsKept rows w =
      ((rows ≡ 0) × (any beside before.db.peers ≡ true) × IsUntouched before w)
      ⊎ ((rows ≡ 1) × (any beside before.db.peers ≡ false) × IsStored before test peer w.db.peers)

  IsInserted-IsStable : (r : ℕ × Db) → IsStable (IsInserted r)
  IsInserted-IsStable r = record { advances = go }
    where
      go : (w : World) → IsInserted r w → IsInserted r (advance w)
      go w (inl (e, c, h, k)) = inl (
        e,
        c,
        (IsUntouched-IsStable before).advances w h,
        (IsUntouched-IsStable before).advances (record w { db = r.1 }) k,
      )
      go w (inr h) = inr h

  pub other : (f : Failure) (w : World) → IsOther (sql_error f) w
  other f w e = cc

  finish-Gives :
      (rows : ℕ) (db : Db)
      → Triple
          (IsInserted (rows, db))
          (if test then plain else commit_transaction db)
          (λ _. IsKept rows)
          IsOther
  finish-Gives rows db =
      Triple-if test _ _
        (λ t. Triple-call _ _ (IsInserted-IsStable _) (λ a w h. tested t w h) other)
        (λ t. Triple-call _ _ (IsInserted-IsStable _) (λ a w h. committed t w h) other)
    where
      tested : test ≡ true → (w : World) → IsInserted (rows, db) w → IsKept rows w
      tested t w (inl (e, c, h, k)) = inl (e, c, h)
      tested t w (inr (e, c, k)) =
          inr (e, c, subst (λ b. IsStored before b peer w.db.peers) (sym t) tt)

      committed :
          test ≡ false → (w : World) → IsInserted (rows, db) w → IsKept rows (record w { db = db })
      committed t w (inl (e, c, h, k)) = inl (e, c, k)
      committed t w (inr (e, c, k)) =
          inr (e, c, subst (λ b. IsStored before b peer db.peers) (sym t) k)

  reserved : (rows : ℕ) (w : World) → IsKept rows w → IsReserved (rows == 1) w
  reserved rows w (inl (e, c, h)) = subst (λ n. IsReserved (n == 1) w) (sym e) (c, h)
  reserved rows w (inr (e, c, h)) = subst (λ n. IsReserved (n == 1) w) (sym e) (c, h)

  pub reserve_peer-Gives : Triple (IsUntouched before) (reserve_peer peer test) IsReserved IsOther
  unfolding reserve_peer acquire
  reserve_peer-Gives =
      let stable = IsUntouched-IsStable before in
      Triple-bind _ _ (Triple-call _ _ stable (λ a w h. h) other) λ _.
        Triple-bind _ _ (Triple-call _ _ stable (λ a w h. h) other) λ _.
          Triple-bind _ _ (Triple-statement {Q = IsInserted} _ stable insert-Gives (λ e w p. cc))
            λ r. Triple-bind _ _ (finish-Gives r.0 r.1) (λ _. Triple-pure _ (reserved r.0))
