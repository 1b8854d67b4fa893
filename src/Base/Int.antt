-- ===== src/Base/Int.antt =====
-- Signed integers over the native numbers, with the conversions that Rust's `as` and `try_from`
-- make between `u32`, `u16`, `i32` and `i64`.
use Prim.Native.Nat.{ℕ, ◌-◌, ◌%◌, ◌^◌, ◌<◌}
use mathlib.Core.Path.{◌≡◌}
use mathlib.Core.Logic.{◌↔◌}
use mathlib.Core.Bool.{Bool, true, false}
use mathlib.Core.Option.{Option, none, some}
use native.Mathlib.Omega.{arith}
use dn42_autopeer.Base.Tests.{ltb, nat_beq, if◌then◌else◌}
use dn42_autopeer.Base.Equality.{Eq}

-- `negsuc n` is -(n + 1).
pub data ℤ : Type 0 where
  pos : ℕ → ℤ
  negsuc : ℕ → ℤ

abbrev pub int_beq : ℤ → ℤ → Bool
int_beq (pos a) (pos b) = nat_beq a b
int_beq (negsuc a) (negsuc b) = nat_beq a b
int_beq _ _ = false

pub int_beq_iff : (a b : ℤ) → (int_beq a b ≡ true) ↔ (a ≡ b)
int_beq_iff (pos a) (pos b) = ground arith
int_beq_iff (pos a) (negsuc b) = ground arith
int_beq_iff (negsuc a) (pos b) = ground arith
int_beq_iff (negsuc a) (negsuc b) = ground arith

instance abbrev pub int_eq : Eq ℤ
int_eq = record { beq = int_beq; beq_iff = int_beq_iff }

-- a < b
abbrev pub ltb_ℤ : ℤ → ℤ → Bool
ltb_ℤ (pos a) (pos b) = ltb a b
ltb_ℤ (pos a) (negsuc b) = false
ltb_ℤ (negsuc a) (pos b) = true
ltb_ℤ (negsuc a) (negsuc b) = ltb b a

-- `x as i32` for a `u32`: the two's complement of the same bits.
unfoldable pub u32_as_i32 : ℕ → ℤ
u32_as_i32 n = if ltb n (2 ^ 31) then pos n else negsuc (2 ^ 32 - 1 - n)

-- `x as i64` for a `u32`, `x as i32` for a `u16`: the value is kept.
abbrev pub widen : ℕ → ℤ
widen n = pos n

-- `x as u16` for an `i32`: the low sixteen bits.
unfoldable pub i32_as_u16 : ℤ → ℕ
i32_as_u16 (pos n) = n % 2 ^ 16
i32_as_u16 (negsuc n) = 2 ^ 16 - 1 - n % 2 ^ 16

-- `uN::try_from` at a limit 2 ^ N.
unfoldable pub try_unsigned : ℕ → ℤ → Option ℕ
try_unsigned limit (pos n) = if ltb n limit then some n else none
try_unsigned limit (negsuc n) = none

abbrev pub try_u32 : ℤ → Option ℕ
try_u32 = try_unsigned (2 ^ 32)

abbrev pub try_u16 : ℤ → Option ℕ
try_u16 = try_unsigned (2 ^ 16)

-- The cast of a number below 2 ^ 31 is read back, and that of a larger one is not.
pub try_u32-u32_as_i32 :
    (n : ℕ) → n < 2 ^ 32 → try_u32 (u32_as_i32 n) ≡ (if ltb n (2 ^ 31) then some n else none)
unfolding u32_as_i32 try_unsigned
try_u32-u32_as_i32 n h = ground arith

-- The cast loses nothing.
pub u32_as_i32_inj : (m n : ℕ) → m < 2 ^ 32 → n < 2 ^ 32 → u32_as_i32 m ≡ u32_as_i32 n → m ≡ n
unfolding u32_as_i32
u32_as_i32_inj m n h k e = ground arith
