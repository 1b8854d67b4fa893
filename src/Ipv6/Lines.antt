-- ===== src/Ipv6/Lines.antt =====
-- `Display` of an address stands on one line.
use dn42_autopeer.Base.{
  ℕ, ◌/◌, ◌%◌, ◌≡◌, refl, Bool, true, false, List, [], ◌∷◌, ◌++◌, ltb, if◌then◌else◌, ◌==◌, nat_eq,
  All-append,
}
use dn42_autopeer.Base.Text.{Text, text, join, IsLine}
use dn42_autopeer.Base.Decimal.{decimal, lower_hex, decimal-IsLine, lower_hex-IsLine}
use dn42_autopeer.Ipv6.Segments.{Ipv6, segments, display, groups, dotted, is_ipv4_mapped}

-- Two texts on one line make one text on one line.
abbrev pub both : (a b : Text) → IsLine a → IsLine b → IsLine (a ++ b)
both a b ha hb = All-append (λ c. (c == 0xa) ≡ false) a b ha hb

groups-IsLine : (xs : List ℕ) → IsLine (groups xs)
unfolding groups join
groups-IsLine [] = tt
groups-IsLine (x ∷ []) = lower_hex-IsLine x
groups-IsLine (x ∷ y ∷ rest) =
    both (lower_hex x) _ (lower_hex-IsLine x) (refl, groups-IsLine (y ∷ rest))

dotted-IsLine : (high low : ℕ) → IsLine (dotted high low)
unfolding dotted join
dotted-IsLine high low = both (decimal (high / 256)) _ (decimal-IsLine _) (
  refl,
  both (decimal (high % 256)) _ (decimal-IsLine _)
      (refl, both (decimal (low / 256)) _ (decimal-IsLine _) (refl, decimal-IsLine _)),
)

if-IsLine : (b : Bool) (x y : Text) → IsLine x → IsLine y → IsLine (if b then x else y)
if-IsLine true x y hx hy = hx
if-IsLine false x y hx hy = hy

pub display-IsLine : (a : Ipv6) → IsLine (display a)
unfolding display text
display-IsLine a =
    if-IsLine (is_ipv4_mapped a) _ _
      (both (text "::ffff:") _ (refl, (refl, (refl, (refl, (refl, (refl, (refl, tt)))))))
        (dotted-IsLine a.s6 a.s7))
      (if-IsLine (ltb 1 _) _ _
        (both (groups _) _ (groups-IsLine _)
          (both (text "::") _ (refl, (refl, tt)) (groups-IsLine _)))
        (groups-IsLine (segments a)))
