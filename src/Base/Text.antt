-- ===== src/Base/Text.antt =====
-- Texts as lists of code points, with the operations of Rust's `str` that the program uses.
use Prim.Native.Nat.{ℕ, zero, suc, ◌+◌, ◌-◌, ◌*◌, ◌^◌}
use Prim.Native.Char.{code}
use Prim.Native.String.{String}
use mathlib.Core.Path.{◌≡◌}
use mathlib.Core.Bool.{Bool, true, false, ◌&&◌, ◌||◌}
use mathlib.Core.Option.{Option, none, some}
use mathlib.Core.List.{List, [], ◌∷◌, ◌++◌, reverse}
use dn42_autopeer.Base.Tests.{ltb, leb, if◌then◌else◌}
use dn42_autopeer.Base.Lists.{All}
use dn42_autopeer.Base.Equality.{◌==◌, text_eq, nat_eq}

abbrev pub Text : Type 0
Text = List ℕ

-- The code points of a literal. It stays shut in proofs, so that a literal is one term there.
unfoldable pub text : String → Text
text String.[] = []
text (String.◌∷◌ c s) = code c ∷ text s

-- A text without a line break.
abbrev pub IsLine : Text → Type 0
IsLine s = All (λ c. (c == 0xa) ≡ false) s

-- `char::is_whitespace`: the code points with the property White_Space.
unfoldable pub is_whitespace : ℕ → Bool
is_whitespace c =
    (leb 0x9 c && leb c 0xd)
    || c == 0x20
    || c == 0x85
    || c == 0xa0
    || c == 0x1680
    || (leb 0x2000 c && leb c 0x200a)
    || c == 0x2028
    || c == 0x2029
    || c == 0x202f
    || c == 0x205f
    || c == 0x3000

unfoldable pub trim_start : Text → Text
trim_start [] = []
trim_start (c ∷ s) = let rest = trim_start s in if is_whitespace c then rest else c ∷ s

-- `str::trim`
unfoldable pub trim : Text → Text
unfolding trim_start is_whitespace
trim s = reverse (trim_start (reverse (trim_start s)))

-- `str::len`: the number of bytes in UTF-8.
unfoldable pub utf8_len : Text → ℕ
utf8_len [] = 0
utf8_len (c ∷ s) =
    (if ltb c 0x80 then 1 else if ltb c 0x800 then 2 else if ltb c 0x10000 then 3 else 4)
    + utf8_len s

unfoldable pub starts_with : Text → Text → Bool
starts_with s [] = true
starts_with [] (p ∷ ps) = false
starts_with (c ∷ s) (p ∷ ps) = c == p && starts_with s ps

unfoldable pub ends_with : Text → Text → Bool
unfolding starts_with
ends_with s p = starts_with (reverse s) (reverse p)

-- `str::find`, with the position counted in code points.
unfoldable pub find_text : Text → Text → Option ℕ
unfolding starts_with
find_text [] p = if starts_with [] p then some 0 else none
find_text (c ∷ s) p =
    let rest = find_text s p in
    if starts_with (c ∷ s) p then some 0 else elim rest [ none ↦ none | some k ↦ some (k + 1) ]

-- `str::contains`
unfoldable pub contains_text : Text → Text → Bool
unfolding find_text
contains_text s p = elim (find_text s p) [ none ↦ false | some _ ↦ true ]

-- `[T]::join` on texts.
unfoldable pub join : Text → List Text → Text
join sep [] = []
join sep (x ∷ []) = x
join sep (x ∷ y ∷ rest) = x ++ (sep ++ join sep (y ∷ rest))

abbrev pub newline : ℕ
newline = 0xa

-- `parse::<u64>()`: an optional plus sign and at least one digit, with no overflow.
parse_digits : Text → ℕ → Option ℕ
parse_digits [] n = if ltb n (2 ^ 64) then some n else none
parse_digits (c ∷ s) n =
    let rest = parse_digits s (n * 10 + (c - b'0')) in
    if leb b'0' c && leb c b'9' then rest else none

unfoldable pub parse_u64 : Text → Option ℕ
unfolding parse_digits
parse_u64 [] = none
parse_u64 (c ∷ []) = parse_digits (c ∷ []) 0
parse_u64 (c ∷ d ∷ s) = if c == b'+' then parse_digits (d ∷ s) 0 else parse_digits (c ∷ d ∷ s) 0

-- `parse::<u32>()` and `parse::<u16>()`: the numbers of `parse::<u64>()` that fit.
unfoldable pub parse_bits : ℕ → Text → Option ℕ
parse_bits bits s = elim (parse_u64 s) [
  | none ↦ none
  | some n ↦ if ltb n (2 ^ bits) then some n else none
]

-- `s[start..]` and `s[..n]`
abbrev pub skip : ℕ → Text → Text
skip zero s = s
skip (suc n) [] = []
skip (suc n) (c ∷ s) = skip n s

abbrev pub front : ℕ → Text → Text
front zero s = []
front (suc n) [] = []
front (suc n) (c ∷ s) = c ∷ front n s
