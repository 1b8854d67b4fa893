-- ===== src/Persist/NonceMap.antt =====
-- src/persist.rs: the table of nonces is a map from nonces to an ASN and a time, whatever the order
-- of its rows.
use dn42_autopeer.Base.{
  ℕ, ◌≡◌, refl, ap, sym, subst, ◌∙◌, List, [], ◌∷◌, keep, any, length, not, Bool, true, false, ◌&&◌,
  Option, none, some, inl, inr, arith, ◌==◌, nat_eq, text_eq, Bool-cases, beq_comm, if◌then◌else◌,
}
use dn42_autopeer.Base.Int.{ℤ, ltb_ℤ, int_eq}
use dn42_autopeer.Base.Text.{Text}
use dn42_autopeer.World.Types.{Db, NonceRow}
use dn42_autopeer.World.Triple.{Gives}
use dn42_autopeer.Persist.Nonces.{add_nonce, delete_expired, redeem, is_redeemed}
use dn42_autopeer.Persist.Invariant.{NoReuse}

-- The abstract table.
abbrev pub NonceMap : Type 0
NonceMap = Text → Option (ℤ × ℤ)

-- What the rows stand for.
abbrev pub view : List NonceRow → NonceMap
view [] n = none
view (r ∷ rows) n =
    let rest = view rows n in if r.nonce == n then some (r.asn, r.expires_at) else rest

-- The operations on the map: forget what has expired, add what is not there, and take out what is
-- there with the ASN and the time and has not expired.
abbrev pub live : ℤ → Option (ℤ × ℤ) → Option (ℤ × ℤ)
live limit none = none
live limit (some (asn, time)) = if ltb_ℤ time limit then none else some (asn, time)

abbrev pub opens : ℤ → ℤ → ℤ → Option (ℤ × ℤ) → Bool
opens asn expires_at clock none = false
opens asn expires_at clock (some (a, time)) =
    a == asn && (time == expires_at && not (ltb_ℤ time clock))

abbrev pub is_none : Option (ℤ × ℤ) → Bool
is_none none = true
is_none (some _) = false

abbrev pub put : Text → ℤ × ℤ → NonceMap → NonceMap
put nonce entry map n = if nonce == n then some entry else map n

abbrev pub take : Bool → Text → NonceMap → NonceMap
take test nonce map n = if test && nonce == n then none else map n

-- Two maps with the same entries.
abbrev pub AreSame : NonceMap → NonceMap → Type 0
AreSame m m' = (n : Text) → m n ≡ m' n

view-none :
    (n : Text) (rows : List NonceRow)
    → any (λ (r : NonceRow). r.nonce == n) rows ≡ false
    → view rows n ≡ none
view-none n [] h = refl
view-none n (r ∷ rows) h = ground (arith, h, view-none n rows)

any-view :
    (n : Text) (rows : List NonceRow)
    → any (λ (r : NonceRow). r.nonce == n) rows ≡ not (is_none (view rows n))
any-view n [] = refl
any-view n (r ∷ rows) = ground (arith, any-view n rows)

purge-refines :
    (limit : ℤ) (rows : List NonceRow)
    → NoReuse rows
    → AreSame
        (view (keep (λ (r : NonceRow). not (ltb_ℤ r.expires_at limit)) rows))
        (λ n. live limit (view rows n))
purge-refines limit [] u n = refl
purge-refines limit (r ∷ rows) u n = elim (Bool-cases (r.nonce == n)) [
  | inl e ↦
      let gone : view rows n ≡ none = view-none n rows (
        subst (λ m. any (λ (r : NonceRow). r.nonce == m) rows ≡ false)
          ((text_eq.beq_iff r.nonce n).0 e) u.0) in
      ground (arith, e, gone, purge-refines limit rows u.1 n)
  | inr e ↦ ground (arith, e, purge-refines limit rows u.1 n)
]

module _ (nonce : Text) (asn expires_at clock : ℤ) where
  abbrev found : List NonceRow → Bool
  found rows = opens asn expires_at clock (view rows nonce)

  count-refines :
      (rows : List NonceRow)
      → NoReuse rows
      → length (keep (is_redeemed nonce asn expires_at clock) rows) ≡ (if found rows then 1 else 0)
  unfolding is_redeemed
  count-refines [] u = refl
  count-refines (r ∷ rows) u = elim (Bool-cases (r.nonce == nonce)) [
    | inl e ↦
        let gone : view rows nonce ≡ none = view-none nonce rows (
          subst (λ m. any (λ (r : NonceRow). r.nonce == m) rows ≡ false)
            ((text_eq.beq_iff r.nonce nonce).0 e) u.0) in
        ground (arith, e, gone, count-refines rows u.1)
    | inr e ↦ ground (arith, e, count-refines rows u.1)
  ]

  rest-refines :
      (rows : List NonceRow)
      → NoReuse rows
      → AreSame
          (view (keep (λ (r : NonceRow). not (is_redeemed nonce asn expires_at clock r)) rows))
          (take (found rows) nonce (view rows))
  unfolding is_redeemed
  rest-refines [] u n = ground arith
  rest-refines (r ∷ rows) u n =
      let later = rest-refines rows u.1 n in
      elim (Bool-cases (r.nonce == nonce)) [
        | inl e ↦
            let same : r.nonce ≡ nonce = (text_eq.beq_iff r.nonce nonce).0 e in
            let gone = view-none r.nonce rows u.0 in
            let missing : view rows nonce ≡ none = subst (λ m. view rows m ≡ none) same gone in
            let tests : (r.nonce == n) ≡ (nonce == n) = ap (λ m. m == n) same in
            elim (Bool-cases (r.nonce == n)) [
              | inl f ↦
                  let none_left : view rows n ≡ none =
                    subst (λ m. view rows m ≡ none) ((text_eq.beq_iff r.nonce n).0 f) gone in
                  ground (arith, e, f, missing, tests, none_left, later)
              | inr f ↦ ground (arith, e, f, missing, tests, later)
            ]
        | inr e ↦ elim (Bool-cases (r.nonce == n)) [
          | inl f ↦
              let tests : (nonce == n) ≡ false =
                ap (λ m. nonce == m) (sym ((text_eq.beq_iff r.nonce n).0 f))
                ∙ (beq_comm nonce r.nonce ∙ e) in
              ground (arith, e, f, tests, later)
          | inr f ↦ ground (arith, e, f, later)
        ]
      ]

-- An insertion, by whether a row has the nonce.
add-refines :
    (nonce : Text) (asn expires_at : ℤ) (db : Db) (there free : Bool)
    → there ≡ not free
    → Gives {A = ℕ}
        (λ rows after.
          (rows ≡ (if free then 1 else 0))
          × AreSame
              (view after.nonces)
              (if free then put nonce (asn, expires_at) (view db.nonces) else view db.nonces))
        (if there
          then inr (0, db)
          else inr (
            1,
            record db {
              nonces = record { nonce = nonce; asn = asn; expires_at = expires_at } ∷ db.nonces;
            },
          ))
add-refines nonce asn expires_at db true true e = absurd (ground (arith, e))
add-refines nonce asn expires_at db true false e = (refl, λ n. refl)
add-refines nonce asn expires_at db false true e = (refl, λ n. refl)
add-refines nonce asn expires_at db false false e = absurd (ground (arith, e))

-- The statements on `auth_nonces` do on the rows what the map says, for every table in which no two
-- rows share their nonce: the expired entries go, an entry is added exactly if there is none, and
-- a redemption takes out the entry of the nonce exactly if it has the ASN and the time and has not
-- expired; the numbers of rows that the statements report are 1 or 0 accordingly.
pub nonces-refine :
    (nonce : Text) (asn expires_at clock : ℤ) (now : ℕ) (db : Db)
    → NoReuse db.nonces
    → Gives
        (λ _ after. AreSame (view after.nonces) (λ n. live clock (view db.nonces n)))
        (delete_expired clock now db)
      × Gives {A = ℕ}
          (λ rows after.
            (rows ≡ (if is_none (view db.nonces nonce) then 1 else 0))
            × AreSame (view after.nonces) (
                if is_none (view db.nonces nonce)
                then put nonce (asn, expires_at) (view db.nonces)
                else view db.nonces))
          (add_nonce nonce asn expires_at now db)
      × Gives {A = ℕ}
          (λ rows after.
            (rows ≡ (if opens asn expires_at clock (view db.nonces nonce) then 1 else 0))
            × AreSame
                (view after.nonces)
                (take (opens asn expires_at clock (view db.nonces nonce)) nonce (view db.nonces)))
          (redeem nonce asn expires_at clock now db)
unfolding delete_expired add_nonce redeem
nonces-refine nonce asn expires_at clock now db u = (
  purge-refines clock db.nonces u,
  add-refines nonce asn expires_at db _ _ (any-view nonce db.nonces),
  (
    count-refines nonce asn expires_at clock db.nonces u,
    rest-refines nonce asn expires_at clock db.nonces u,
  ),
)
