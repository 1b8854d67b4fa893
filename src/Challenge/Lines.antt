-- ===== src/Challenge/Lines.antt =====
-- src/challenge.rs: a message is read back line by line.
use dn42_autopeer.Base.{ℕ, suc, subst, ◌≡◌, sym, ap, ◌++◌, [], ◌∷◌, nat_eq, All, arith}
use dn42_autopeer.Base.Int.{ℤ, pos, negsuc}
use dn42_autopeer.Base.Text.{Text, IsLine}
use dn42_autopeer.Base.Decimal.{decimal, decimal_ℤ, decimal_inj, IsDigit, decimal-IsDigit}

-- A label begins with a line break.
abbrev pub IsLabel : Text → Type 0
IsLabel l = (rest : Text) × (l ≡ 0xa ∷ rest)

pub cancel : (p a b : Text) → p ++ a ≡ p ++ b → a ≡ b
cancel [] a b e = e
cancel (c ∷ p) a b e = cancel p a b (ground (arith, e))

split : (a b x y : Text) → IsLine a → IsLine b → a ++ 0xa ∷ x ≡ b ++ 0xa ∷ y → (a ≡ b) × (x ≡ y)
split [] [] x y ha hb e = ground (arith, e)
split [] (d ∷ b) x y ha hb e = ground (arith, e)
split (c ∷ a) [] x y ha hb e = ground (arith, e)
split (c ∷ a) (d ∷ b) x y ha hb e =
    let later = split a b x y ha.1 hb.1 (ground (arith, e)) in (ground (arith, e, later.0), later.1)

-- What stands on a line before a label, and what follows the label.
pub field :
    (l a b x y : Text)
    → IsLabel l
    → IsLine a
    → IsLine b
    → a ++ (l ++ x) ≡ b ++ (l ++ y)
    → (a ≡ b) × (x ≡ y)
field l a b x y (rest, starts) ha hb e =
    let (same, tails) =
      split a b (rest ++ x) (rest ++ y) ha hb
        (subst (λ l. a ++ (l ++ x) ≡ b ++ (l ++ y)) starts e) in
    (same, cancel rest x y tails)

no_sign : (n : ℕ) (s : Text) → decimal n ≡ b'-' ∷ s → ⊥
no_sign n s e =
    let signed : All IsDigit (b'-' ∷ s) = subst (All IsDigit) e (decimal-IsDigit n) in
    omega (arith, signed.0.0)

suc_inj : (m n : ℕ) → suc m ≡ suc n → m ≡ n
suc_inj m n e = omega (arith, e)

pub decimal_ℤ_inj : (a b : ℤ) → decimal_ℤ a ≡ decimal_ℤ b → a ≡ b
unfolding decimal_ℤ
decimal_ℤ_inj (pos m) (pos n) e = ap pos (decimal_inj m n e)
decimal_ℤ_inj (pos m) (negsuc n) e = absurd (no_sign m (decimal (suc n)) e)
decimal_ℤ_inj (negsuc m) (pos n) e = absurd (no_sign n (decimal (suc m)) (sym e))
decimal_ℤ_inj (negsuc m) (negsuc n) e =
    ap negsuc (suc_inj m n (decimal_inj (suc m) (suc n) (ground (arith, e))))
