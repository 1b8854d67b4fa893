-- ===== src/Challenge/Guard.antt =====
-- src/challenge.rs: a nonce that is not stored opens nothing, and a nonce is redeemed once.
use dn42_autopeer.Base.{
  beq_refl, ℕ, ◌≡◌, refl, ap, List, [], ◌∷◌, Bool, true, false, not, keep, any, length, ◌==◌,
  nat_eq, text_eq, arith, Bool-cases, sym, subst, inl, inr,
}
use mathlib.Core.Path.{ap₂}
use dn42_autopeer.Base.Int.{ℤ, widen, ltb_ℤ, int_eq}
use dn42_autopeer.Base.Text.{Text}
use dn42_autopeer.External.{External}
use dn42_autopeer.Result.{Result, ok, err}
use dn42_autopeer.World.Types.{World, Db, NonceRow}
use dn42_autopeer.World.Action.{is_ok_true, execute, pure}
use dn42_autopeer.World.Keeps.{Keeps, IsStable, Keeps-acquire, Keeps-lift, keeps_rules}
use dn42_autopeer.World.Triple.{Ends, Triple, Triple-bind, Triple-Keeps, Triple-execute, Gives}
use dn42_autopeer.World.Refuses.{
  IsSame, IsSame-IsStable, Refuses, Refuses-after, Refuses-raise, Refuses-if, IsErr,
  Refuses-refusal, Refuses-not,
}
use dn42_autopeer.Persist.Invariant.{NoReuse, IsConsistent, redeem-Preserves}
use dn42_autopeer.Persist.Consistent.{Consistent, Consistent-IsStable, unix_timestamp-Consistent}
use dn42_autopeer.Persist.{add_nonce, is_redeemed, redeem, unix_timestamp, consume_nonce}
use dn42_autopeer.Challenge.Authorize.{RequestAuthorizer, try_acquire, authorize_request}

-- No stored nonce is this one.
abbrev pub Gone : Text → List NonceRow → Type 0
Gone nonce rows = any (λ r. r.nonce == nonce) rows ≡ false

module _ (nonce : Text) (asn expires_at clock : ℤ) where
  pub none-redeemed :
      (rows : List NonceRow)
      → Gone nonce rows
      → keep (is_redeemed nonce asn expires_at clock) rows ≡ []
  unfolding is_redeemed
  none-redeemed [] h = refl
  none-redeemed (r ∷ rows) h = ground (arith, none-redeemed rows)

  all-kept :
      (rows : List NonceRow)
      → Gone nonce rows
      → keep (λ r. not (is_redeemed nonce asn expires_at clock r)) rows ≡ rows
  unfolding is_redeemed
  all-kept [] h = refl
  all-kept (r ∷ rows) h = ground (arith, all-kept rows)

  -- A redemption finds no row, and leaves the database as it is.
  redeem-unknown :
      (now : ℕ) (db : Db)
      → Gone nonce db.nonces
      → redeem nonce asn expires_at clock now db ≡ inr (0, db)
  unfolding redeem
  redeem-unknown now db h =
      ap₂ (λ (n : ℕ) (rows : List NonceRow). inr (n, record db { nonces = rows }))
        (ap length (none-redeemed db.nonces h)) (all-kept db.nonces h)

  -- The row that is redeemed was the only one with the nonce.
  redeemed-Gone :
      (rows : List NonceRow)
      → NoReuse rows
      → length (keep (is_redeemed nonce asn expires_at clock) rows) ≡ 1
      → Gone nonce (keep (λ r. not (is_redeemed nonce asn expires_at clock r)) rows)
  unfolding is_redeemed
  redeemed-Gone [] u h = refl
  redeemed-Gone (r ∷ rows) u h = elim (Bool-cases (r.nonce == nonce)) [
    | inl e ↦
        let gone : Gone nonce rows =
          subst (λ n. Gone n rows) ((text_eq.beq_iff r.nonce nonce).0 e) u.0 in
        ground (arith, none-redeemed rows gone, all-kept rows gone)
    | inr e ↦ ground (arith, redeemed-Gone rows u.1)
  ]

-- The database of the world does not hold the nonce.
abbrev pub IsUnknown : Text → World → Type 0
IsUnknown nonce w = Gone nonce w.db.nonces

module _ (nonce : Text) (before : World) (unknown : IsUnknown nonce before) where
  stable : IsStable (IsSame before)
  stable = IsSame-IsStable before

  redeem-refused :
      (asn expires_at clock : ℤ)
      → Triple
          (IsSame before)
          (execute (redeem nonce asn expires_at clock))
          (λ rows w. (rows ≡ 0) × IsSame before w)
          (λ _. IsSame before)
  redeem-refused asn expires_at clock = Triple-execute (IsSame before) _ _ stable λ now w h.
      subst
        (Gives λ rows db.
          IsSame before (record w { db = db })
          × ((rows ≡ 0) × IsSame before (record w { db = db })))
        (sym (
          redeem-unknown nonce asn expires_at clock now w.db
            (subst (λ db. Gone nonce db.nonces) (sym h.db) unknown)))
        (like w h, (refl, like w h))
    where
      like : (w : World) → IsSame before w → IsSame before (record w { db = w.db })
      like w h = h

  unix_timestamp-IsSame : Keeps (IsSame before) unix_timestamp
  unfolding unix_timestamp
  unix_timestamp-IsSame = search (keeps_rules, stable)

  try_acquire-IsSame : Keeps (IsSame before) try_acquire
  unfolding try_acquire
  try_acquire-IsSame = search (keeps_rules, stable)

  -- A redemption that returns says no.
  consume-unknown :
      (asn : ℕ) (expires_at : ℤ)
      → Triple
          (IsSame before)
          (consume_nonce asn nonce expires_at)
          (λ consumed w. (consumed ≡ false) × IsSame before w)
          (λ _. IsSame before)
  unfolding consume_nonce pure
  consume-unknown asn expires_at = Triple-bind _ _ (Triple-Keeps _ (Keeps-acquire stable)) λ _.
      Triple-bind _ _ (Triple-Keeps _ unix_timestamp-IsSame) λ clock.
        Triple-bind _ _ (redeem-refused (widen asn) expires_at clock)
          λ rows. record { at = λ w h. (ap (λ n. n == 1) h.0, h.1) }

  module _ ⦃lib : External⦄ where
    pub authorize-Refuses :
        (self : RequestAuthorizer) (asn : ℕ) (public_key signature : Text) (expires_at : ℤ)
        (message : Text)
        → Refuses before (authorize_request self asn public_key signature nonce expires_at message)
    unfolding authorize_request
    authorize-Refuses self asn public_key signature expires_at message =
        Refuses-after _ _ unix_timestamp-IsSame λ clock.
          Refuses-if (ltb_ℤ expires_at clock) _ _ (λ _. Refuses-raise _)
            λ _. Refuses-after _ _ (Keeps-lift _) λ _. Refuses-after _ _ try_acquire-IsSame λ _.
              Triple-bind _ _ (consume-unknown asn expires_at)
                λ consumed. Refuses-not consumed _ _ (Refuses-raise _)

module _ (nonce : Text) where
  redeem-Gives :
      (asn expires_at clock : ℤ) (now : ℕ) (w : World)
      → IsConsistent w.db
      → Gives
          (λ rows db. IsConsistent db × ((rows ≡ 1) → Gone nonce db.nonces))
          (redeem nonce asn expires_at clock now w.db)
  unfolding redeem
  redeem-Gives asn expires_at clock now w h = (
    redeem-Preserves nonce asn expires_at clock now w.db h,
    redeemed-Gone nonce asn expires_at clock w.db.nonces h.nonce_keys,
  )

  consume-Gone :
      (asn : ℕ) (expires_at : ℤ)
      → Triple Consistent
          (consume_nonce asn nonce expires_at)
          (λ consumed w. (consumed ≡ true) → IsUnknown nonce w)
          (λ _. Consistent)
  unfolding consume_nonce pure redeem
  consume-Gone asn expires_at =
      Triple-bind _ _ (Triple-Keeps _ (Keeps-acquire Consistent-IsStable)) λ _.
        Triple-bind _ _ (Triple-Keeps _ unix_timestamp-Consistent) λ clock.
          Triple-bind _ _
            (Triple-execute Consistent (λ rows w. (rows ≡ 1) → IsUnknown nonce w) _
              Consistent-IsStable λ now w h. redeem-Gives (widen asn) expires_at clock now w h)
            λ rows. record { at = λ w h e. h ((nat_eq.beq_iff rows 1).0 e) }

-- A nonce that was redeemed is no longer stored: from a consistent database, when `consume_nonce`
-- answers `true`, the world that it leaves does not hold the nonce.
pub consume_nonce-IsUnknown :
    (asn : ℕ) (nonce : Text) (expires_at : ℤ) (w : World)
    → Consistent w
    → (consume_nonce asn nonce expires_at w).0 ≡ ok true
    → IsUnknown nonce (consume_nonce asn nonce expires_at w).1
consume_nonce-IsUnknown asn nonce expires_at w h e =
    go (consume_nonce asn nonce expires_at w) ((consume-Gone nonce asn expires_at).at w h) e
  where
    go :
        (o : Result Bool × World)
        → Ends (λ consumed v. (consumed ≡ true) → IsUnknown nonce v) (λ _. Consistent) o.0 o.1
        → o.0 ≡ ok true
        → IsUnknown nonce o.1
    go (ok b, v) k q = k (ap (λ (r : Result Bool). is_ok_true r) q)
    go (err x, v) k q = ground (arith, q)

-- A request whose nonce is not stored is refused: `authorize_request` returns an error, and leaves
-- the database, the links, the configuration of BIRD and the port set as they were.
pub authorize_request-refuses :
    ⦃lib : External⦄ (self : RequestAuthorizer) (asn : ℕ) (public_key signature nonce : Text)
    (expires_at : ℤ) (message : Text) (w : World)
    → IsUnknown nonce w
    → IsErr (authorize_request self asn public_key signature nonce expires_at message w).0
      × IsSame w (authorize_request self asn public_key signature nonce expires_at message w).1
authorize_request-refuses self asn public_key signature nonce expires_at message w h =
    Refuses-refusal _ (authorize-Refuses nonce w h self asn public_key signature expires_at message)

-- A stored nonce opens once: in a database that does not hold the nonce, `add_nonce` writes one
-- row, and until it expires a redemption with the same ASN and time finds exactly one row and
-- leaves the database from before.
pub redeem-add_nonce :
    (nonce : Text) (asn expires_at clock : ℤ) (now later : ℕ) (db : Db)
    → Gone nonce db.nonces
    → ltb_ℤ expires_at clock ≡ false
    → (stored : Db) × ((add_nonce nonce asn expires_at now db ≡ inr (1, stored))
        × (redeem nonce asn expires_at clock later stored ≡ inr (1, db)))
unfolding add_nonce redeem is_redeemed
redeem-add_nonce nonce asn expires_at clock now later db gone fresh = (
  record db { nonces = record { nonce = nonce; asn = asn; expires_at = expires_at } ∷ db.nonces },
  (
    rw (gone),
    ap₂ (λ (n : ℕ) (rows : List NonceRow). inr (n, record db { nonces = rows })) one rest,
  ),
)
  where
    row : NonceRow
    row = record { nonce = nonce; asn = asn; expires_at = expires_at }

    same : is_redeemed nonce asn expires_at clock row ≡ true
    same = ground (arith, beq_refl nonce, beq_refl asn, beq_refl expires_at)

    one : length (keep (is_redeemed nonce asn expires_at clock) (row ∷ db.nonces)) ≡ 1
    one = ground (arith, same, none-redeemed nonce asn expires_at clock db.nonces gone)

    rest : keep (λ r. not (is_redeemed nonce asn expires_at clock r)) (row ∷ db.nonces) ≡ db.nonces
    rest = ground (arith, same, all-kept nonce asn expires_at clock db.nonces gone)
