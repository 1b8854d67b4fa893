-- ===== src/Challenge/Issue.antt =====
-- src/challenge.rs: a challenge that was issued can be redeemed until it expires.
use dn42_autopeer.Base.{
  if◌then◌else◌, ℕ, zero, suc, ◌+◌, ◌≡◌, refl, ap, ◌∙◌, List, ◌∷◌, Bool, true, false, not, none,
  keep, length, beq_refl, any, arith, ◌==◌, nat_eq, text_eq, inr,
}
use dn42_autopeer.Base.Int.{ℤ, pos, widen, ltb_ℤ, int_eq}
use dn42_autopeer.Base.Text.{Text}
use dn42_autopeer.Result.{ok}
use dn42_autopeer.World.Types.{World, Db, NonceRow}
use dn42_autopeer.World.Action.{
  execute, pure, acquire, call, settle, answer, commit, ◌>>=◌, continue,
}
use dn42_autopeer.World.Keeps.{IsStable}
use dn42_autopeer.World.Triple.{
  Triple-raise, Triple-bind, Triple-pure, Triple-before, Triple-any, Triple-returned, Partial,
  Partial-execute, Gives,
}
use dn42_autopeer.Persist.{
  add_nonce, delete_expired, redeem, is_redeemed, insert_nonce, consume_nonce, unix_timestamp,
}
use dn42_autopeer.Challenge.Authorize.{allocate_nonce, issue_challenge, random_key}
use dn42_autopeer.Challenge.Guard.{Gone, none-redeemed}

abbrev pub nonce_row : Text → ℤ → ℤ → NonceRow
nonce_row nonce asn expires_at = record { nonce = nonce; asn = asn; expires_at = expires_at }

-- The row stands at the head of the table, and no other row has its nonce.
record IsNewest (nonce : Text) (asn expires_at : ℤ) (w : World) : Type 0 where
  older : List NonceRow
  rows : w.db.nonces ≡ nonce_row nonce asn expires_at ∷ older
  only : Gone nonce older

anything : IsStable (λ w. Unit)
anything = record { advances = λ w h. tt }

-- An insertion that writes a row has put it there.
add_nonce-IsNewest :
    (nonce : Text) (asn expires_at : ℤ) (now : ℕ) (w : World)
    → Gives {A = ℕ}
        (λ rows db. (rows ≡ 1) → IsNewest nonce asn expires_at (record w { db = db }))
        (add_nonce nonce asn expires_at now w.db)
unfolding add_nonce
add_nonce-IsNewest nonce asn expires_at now w = go _ refl
  where
    go :
        (b : Bool)
        → any (λ (r : NonceRow). r.nonce == nonce) w.db.nonces ≡ b
        → Gives {A = ℕ}
            (λ rows db. (rows ≡ 1) → IsNewest nonce asn expires_at (record w { db = db }))
            (if b
              then inr (0, w.db)
              else inr (1, record w.db { nonces = nonce_row nonce asn expires_at ∷ w.db.nonces }))
    go true e = λ h. ground (arith, h)
    go false e = λ h. record { older = w.db.nonces; rows = refl; only = e }

insert_nonce-IsNewest :
    (asn : ℕ) (nonce : Text) (expires_at : ℤ)
    → Partial
        (λ _. Unit)
        (insert_nonce asn nonce expires_at)
        (λ inserted w. (inserted ≡ true) → IsNewest nonce (widen asn) expires_at w)
unfolding insert_nonce
insert_nonce-IsNewest asn nonce expires_at = Triple-bind _ _ (Triple-any _) λ _.
    Triple-bind _ _ (Triple-any _) λ clock. Triple-bind _ _ (Triple-any _) λ _.
      Triple-bind _ _
        (Partial-execute (λ rows w. (rows ≡ 1) → IsNewest nonce (widen asn) expires_at w) _ anything
          (λ now w h. add_nonce-IsNewest nonce (widen asn) expires_at now w))
        λ rows. Triple-pure _ (λ w h e. h ((nat_eq.beq_iff rows 1).0 e))

allocate_nonce-IsNewest :
    (attempts asn : ℕ) (expires_at : ℤ)
    → Partial
        (λ _. Unit)
        (allocate_nonce attempts asn expires_at)
        (λ issued w. IsNewest issued.0 (widen asn) issued.1 w)
unfolding allocate_nonce
allocate_nonce-IsNewest zero asn expires_at = Triple-raise _ (λ w h. tt)
allocate_nonce-IsNewest (suc attempts) asn expires_at =
    let later = allocate_nonce-IsNewest attempts asn expires_at in
    Triple-bind _ _ (Triple-any _) λ nonce.
      Triple-bind _ _ (insert_nonce-IsNewest asn nonce expires_at)
        λ inserted. on nonce later inserted
  where
    on :
        (nonce : Text)
        → Partial
            (λ _. Unit)
            (allocate_nonce attempts asn expires_at)
            (λ issued w. IsNewest issued.0 (widen asn) issued.1 w)
        → (inserted : Bool)
        → Partial
            (λ w. (inserted ≡ true) → IsNewest nonce (widen asn) expires_at w)
            (elim inserted [
              | true ↦ pure (nonce, expires_at)
              | false ↦ allocate_nonce attempts asn expires_at
            ])
            (λ issued w. IsNewest issued.0 (widen asn) issued.1 w)
    on nonce later true = Triple-pure _ (λ w h. h refl)
    on nonce later false = Triple-before _ (λ w h. tt) later

issue_challenge-IsNewest :
    (asn : ℕ)
    → Partial
        (λ _. Unit)
        (issue_challenge asn)
        (λ issued w. IsNewest issued.0 (widen asn) issued.1 w)
unfolding issue_challenge
issue_challenge-IsNewest asn =
    Triple-bind _ _ (Triple-any _) (λ clock. allocate_nonce-IsNewest 4 asn _)

-- No call to come fails.
abbrev pub IsCalm : World → Type 0
IsCalm w = (n : ℕ) → (w.answers n).fault ≡ none

-- The newest row is the one that is found.
newest-redeemed :
    (nonce : Text) (asn expires_at clock : ℤ) (w : World)
    → IsNewest nonce asn expires_at w
    → ltb_ℤ expires_at clock ≡ false
    → length (keep (is_redeemed nonce asn expires_at clock) w.db.nonces) ≡ 1
unfolding is_redeemed
newest-redeemed nonce asn expires_at clock w newest fresh = rw newest.rows (
    ground (
      arith,
      fresh,
      beq_refl nonce,
      beq_refl asn,
      beq_refl expires_at,
      none-redeemed nonce asn expires_at clock newest.older newest.only,
    ))

-- In a calm world, the answer of a redemption is whether one row was found.
consume_nonce-calm :
    (asn : ℕ) (nonce : Text) (expires_at : ℤ) (w : World)
    → IsCalm w
    → (consume_nonce asn nonce expires_at w).0
      ≡ ok (
          length
            (keep (is_redeemed nonce (widen asn) expires_at (pos (w.answers 1).now)) w.db.nonces)
          == 1)
unfolding consume_nonce acquire call settle unix_timestamp answer execute commit redeem pure ◌>>=◌
    continue
consume_nonce-calm asn nonce expires_at w calm = rw (calm 0, calm 2) refl

-- A challenge that was issued can be redeemed: if `issue_challenge` returned a nonce and a time, and
-- the table is as it left it, then `consume_nonce` says yes to the nonce under the same ASN and
-- time, as long as its calls do not fail and the clock does not show a later time.
pub issue_challenge-redeems :
    (asn : ℕ) (nonce : Text) (expires_at : ℤ) (w later : World)
    → (issue_challenge asn w).0 ≡ ok (nonce, expires_at)
    → later.db ≡ (issue_challenge asn w).1.db
    → IsCalm later
    → ltb_ℤ expires_at (pos (later.answers 1).now) ≡ false
    → (consume_nonce asn nonce expires_at later).0 ≡ ok true
issue_challenge-redeems asn nonce expires_at w later issued same calm fresh =
    let newest = Triple-returned _ w (nonce, expires_at) (issue_challenge-IsNewest asn) tt issued in
    let there : IsNewest nonce (widen asn) expires_at later = record {
      older = newest.older;
      rows = ap (λ (d : Db). d.nonces) same ∙ newest.rows;
      only = newest.only;
    } in
    consume_nonce-calm asn nonce expires_at later calm
    ∙ ap (λ n. ok (n == 1))
        (newest-redeemed nonce (widen asn) expires_at (pos (later.answers 1).now) later there fresh)

-- A challenge is issued when nothing fails: if no call fails and the random key is not the nonce of
-- a row that has not expired, then `issue_challenge` returns the key, with the time that lies 300
-- seconds after what the clock shows.
pub issue_challenge-issues :
    (asn : ℕ) (w : World)
    → IsCalm w
    → Gone
        (w.answers 1).random_key
        (keep (λ (r : NonceRow). not (ltb_ℤ r.expires_at (pos (w.answers 3).now))) w.db.nonces)
    → (issue_challenge asn w).0 ≡ ok ((w.answers 1).random_key, pos ((w.answers 0).now + 300))
unfolding issue_challenge allocate_nonce random_key insert_nonce acquire call settle unix_timestamp
    answer execute commit delete_expired add_nonce pure ◌>>=◌ continue
issue_challenge-issues asn w calm gone = rw (calm 2, calm 4, calm 5, gone) refl
