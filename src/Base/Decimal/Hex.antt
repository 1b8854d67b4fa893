-- ===== src/Base/Decimal/Hex.antt =====
-- Hexadecimal numbers are read back, and hold no dash.
use Prim.Native.Nat.{ℕ, zero, suc, ◌+◌, ◌*◌, ◌-◌, ◌/◌, ◌%◌, ◌<◌}
use mathlib.Core.Path.{◌≡◌, refl, ap, ◌∙◌, sym}
use mathlib.Core.Logic.{inl, inr}
use mathlib.Core.Bool.{Bool, true, false}
use mathlib.Core.List.{[], ◌∷◌, ◌++◌}
use native.Mathlib.Omega.{arith}
use dn42_autopeer.Base.Tests.{ltb, if◌then◌else◌, Bool-cases, ltb→lt}
use dn42_autopeer.Base.Equality.{◌==◌, nat_eq}
use dn42_autopeer.Base.Lists.{All, All-append}
use dn42_autopeer.Base.Text.{Text}
use dn42_autopeer.Base.Decimal.{digit_char, digits, lower_hex}

abbrev hex_value : ℕ → ℕ
hex_value c = if ltb c 58 then c - 48 else c - 87

-- The number that hexadecimal digits stand for.
read_hex : ℕ → Text → ℕ
read_hex acc [] = acc
read_hex acc (c ∷ s) = read_hex (acc * 16 + hex_value c) s

read_hex-append :
    (acc : ℕ) (s : Text) (c : ℕ) → read_hex acc (s ++ c ∷ []) ≡ read_hex acc s * 16 + hex_value c
unfolding read_hex
read_hex-append acc [] c = refl
read_hex-append acc (d ∷ s) c = read_hex-append (acc * 16 + hex_value d) s c

hex_value-digit_char : (n : ℕ) → hex_value (digit_char (n % 16)) ≡ n % 16
hex_value-digit_char n = ground arith

read_hex-digits : (fuel n : ℕ) → n < fuel → read_hex 0 (digits 16 fuel n) ≡ n
unfolding digits read_hex
read_hex-digits zero n h = absurd (omega arith)
read_hex-digits (suc fuel) n h = elim (Bool-cases (ltb n 16)) [
  | inl small ↦ rw (small, hex_value-digit_char) (omega (arith, ltb→lt n 16 small))
  | inr large ↦
      rw
        (large, read_hex-append, hex_value-digit_char, read_hex-digits fuel (n / 16) (ground arith))
        (omega arith)
]

-- Two numbers with the same hexadecimal digits are the same.
pub lower_hex_inj : (m n : ℕ) → lower_hex m ≡ lower_hex n → m ≡ n
unfolding lower_hex
lower_hex_inj m n e =
    sym (read_hex-digits (suc m) m (omega arith))
    ∙ (ap (read_hex 0) e ∙ read_hex-digits (suc n) n (omega arith))

-- A text without a dash.
abbrev pub IsDashless : Text → Type 0
IsDashless s = All (λ c. (c == 45) ≡ false) s

digits-IsDashless : (fuel n : ℕ) → IsDashless (digits 16 fuel n)
unfolding digits
digits-IsDashless zero n = tt
digits-IsDashless (suc fuel) n =
    All-append (λ c. (c == 45) ≡ false) _ _ (earlier (digits-IsDashless fuel (n / 16)) (ltb n 16))
      (ground arith, tt)
  where
    earlier :
        IsDashless (digits 16 fuel (n / 16))
        → (b : Bool) → IsDashless (if b then [] else digits 16 fuel (n / 16))
    earlier h true = tt
    earlier h false = h

pub lower_hex-IsDashless : (n : ℕ) → IsDashless (lower_hex n)
unfolding lower_hex
lower_hex-IsDashless n = digits-IsDashless (suc n) n
