-- ===== src/Base/Decimal.antt =====
-- `Display` of integers, and `{:x}`.
pub mod Hex
use Prim.Native.Nat.{ℕ, zero, suc, ◌+◌, ◌*◌, ◌-◌, ◌/◌, ◌%◌, ◌<◌, ◌≤◌}
use mathlib.Core.Path.{◌≡◌, refl, ap, ◌∙◌, sym}
use mathlib.Core.Logic.{inl, inr}
use mathlib.Core.Bool.{Bool, true, false}
use mathlib.Core.List.{[], ◌∷◌, ◌++◌}
use native.Mathlib.Omega.{arith}
use dn42_autopeer.Base.Tests.{ltb, if◌then◌else◌, Bool-cases, ltb→lt}
use dn42_autopeer.Base.Equality.{◌==◌, nat_eq}
use dn42_autopeer.Base.Lists.{All, All-append}
use dn42_autopeer.Base.Text.{Text, IsLine}
use dn42_autopeer.Base.Int.{ℤ, pos, negsuc}

-- The character of a digit below sixteen.
abbrev pub digit_char : ℕ → ℕ
digit_char d = if ltb d 10 then 48 + d else 87 + d

-- The digits of `n` from the most significant one. The fuel is one more than `n`.
digits : ℕ → ℕ → ℕ → Text
digits base zero n = []
digits base (suc fuel) n =
    let rest = digits base fuel (n / base) in
    (if ltb n base then [] else rest) ++ digit_char (n % base) ∷ []

-- `{}` of an unsigned integer.
unfoldable pub decimal : ℕ → Text
unfolding digits
decimal n = digits 10 (suc n) n

-- `{:x}` of an unsigned integer.
unfoldable pub lower_hex : ℕ → Text
unfolding digits
lower_hex n = digits 16 (suc n) n

-- `{}` of a signed integer.
unfoldable pub decimal_ℤ : ℤ → Text
unfolding decimal
decimal_ℤ (pos n) = decimal n
decimal_ℤ (negsuc n) = b'-' ∷ decimal (suc n)

-- The number that decimal digits stand for.
read : ℕ → Text → ℕ
read acc [] = acc
read acc (c ∷ s) = read (acc * 10 + (c - 48)) s

read-append : (acc : ℕ) (s : Text) (c : ℕ) → read acc (s ++ c ∷ []) ≡ read acc s * 10 + (c - 48)
unfolding read
read-append acc [] c = refl
read-append acc (d ∷ s) c = read-append (acc * 10 + (d - 48)) s c

digit_char-value : (n : ℕ) → digit_char (n % 10) - 48 ≡ n % 10
digit_char-value n = ground arith

read-digits : (fuel n : ℕ) → n < fuel → read 0 (digits 10 fuel n) ≡ n
unfolding digits read
read-digits zero n h = absurd (omega arith)
read-digits (suc fuel) n h = elim (Bool-cases (ltb n 10)) [
  | inl small ↦ rw (small, digit_char-value) (omega (arith, ltb→lt n 10 small))
  | inr large ↦
      rw (large, read-append, digit_char-value, read-digits fuel (n / 10) (ground arith))
        (omega arith)
]

-- Two numbers with the same digits are the same.
pub decimal_inj : (m n : ℕ) → decimal m ≡ decimal n → m ≡ n
unfolding decimal
decimal_inj m n e =
    sym (read-digits (suc m) m (omega arith)) ∙ ap (read 0) e ∙ read-digits (suc n) n (omega arith)

-- The characters of a number are decimal digits.
abbrev pub IsDigit : ℕ → Type 0
IsDigit c = (48 ≤ c) × (c ≤ 57)

digits-IsDigit : (fuel n : ℕ) → All IsDigit (digits 10 fuel n)
unfolding digits
digits-IsDigit zero n = tt
digits-IsDigit (suc fuel) n =
    All-append IsDigit _ _ (front (digits-IsDigit fuel (n / 10)) (ltb n 10)) (ground arith, tt)
  where
    front :
        All IsDigit (digits 10 fuel (n / 10))
        → (b : Bool) → All IsDigit (if b then [] else digits 10 fuel (n / 10))
    front earlier true = tt
    front earlier false = earlier

pub decimal-IsDigit : (n : ℕ) → All IsDigit (decimal n)
unfolding decimal
decimal-IsDigit n = digits-IsDigit (suc n) n

-- The characters of a number in any base are no line breaks.
digits-IsLine : (base fuel n : ℕ) → IsLine (digits base fuel n)
unfolding digits
digits-IsLine base zero n = tt
digits-IsLine base (suc fuel) n =
    All-append (λ c. (c == 0xa) ≡ false) _ _
      (front (digits-IsLine base fuel (n / base)) (ltb n base)) (ground arith, tt)
  where
    front :
        IsLine (digits base fuel (n / base))
        → (b : Bool) → IsLine (if b then [] else digits base fuel (n / base))
    front earlier true = tt
    front earlier false = earlier

pub decimal-IsLine : (n : ℕ) → IsLine (decimal n)
unfolding decimal
decimal-IsLine n = digits-IsLine 10 (suc n) n

pub lower_hex-IsLine : (n : ℕ) → IsLine (lower_hex n)
unfolding lower_hex
lower_hex-IsLine n = digits-IsLine 16 (suc n) n
