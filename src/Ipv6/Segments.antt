-- ===== src/Ipv6/Segments.antt =====
-- `std::net::Ipv6Addr`: its segments, `Display`, `is_unicast_link_local` and equality.
use Prim.Native.Nat.{bit_and}
use dn42_autopeer.Base.{
  ℕ, zero, suc, ◌+◌, ◌/◌, ◌%◌, ◌<◌, ◌≡◌, ◌↔◌, Bool, true, ◌&&◌, List, [], ◌∷◌, ◌++◌, map, ltb,
  if◌then◌else◌, ◌==◌, Eq, nat_eq, text_eq, arith,
}
use dn42_autopeer.Base.Text.{Text, text, join}
use dn42_autopeer.Base.Decimal.{decimal, lower_hex}

pub record Ipv6 : Type 0 where
  pub s0 : ℕ
  pub s1 : ℕ
  pub s2 : ℕ
  pub s3 : ℕ
  pub s4 : ℕ
  pub s5 : ℕ
  pub s6 : ℕ
  pub s7 : ℕ

abbrev pub segments : Ipv6 → List ℕ
segments a = a.s0 ∷ a.s1 ∷ a.s2 ∷ a.s3 ∷ a.s4 ∷ a.s5 ∷ a.s6 ∷ a.s7 ∷ []

abbrev pub ipv6_beq : Ipv6 → Ipv6 → Bool
ipv6_beq a b = segments a == segments b

pub ipv6_beq_iff : (a b : Ipv6) → (ipv6_beq a b ≡ true) ↔ (a ≡ b)
ipv6_beq_iff a b = (
  λ h. ground (arith, (text_eq.beq_iff (segments a) (segments b)).0 h),
  λ p. (text_eq.beq_iff (segments a) (segments b)).1 (λ i. segments (p i)),
)

instance abbrev pub ipv6_eq : Eq Ipv6
ipv6_eq = record { beq = ipv6_beq; beq_iff = ipv6_beq_iff }

-- Every segment is a `u16`.
abbrev pub IsIpv6 : Ipv6 → Type 0
IsIpv6 a =
    (a.s0 < 0x10000)
    × (a.s1 < 0x10000)
    × (a.s2 < 0x10000)
    × (a.s3 < 0x10000)
    × (a.s4 < 0x10000)
    × (a.s5 < 0x10000)
    × (a.s6 < 0x10000)
    × (a.s7 < 0x10000)

-- `(self.segments()[0] & 0xffc0) == 0xfe80`
unfoldable pub is_unicast_link_local : Ipv6 → Bool
is_unicast_link_local a = bit_and a.s0 0xffc0 == 0xfe80

-- The first longest run of zero segments, as its start and its length.
unfoldable pub longest_run : List ℕ → ℕ → ℕ × ℕ → ℕ × ℕ → ℕ × ℕ
longest_run [] i current longest = longest
longest_run (s ∷ rest) i (start, len) (best, most) =
    let here : ℕ × ℕ = if s == 0 then (if len == 0 then i else start, len + 1) else (0, 0) in
    longest_run rest (i + 1) here (if ltb most here.1 then here else (best, most))

unfoldable pub take_segments : ℕ → List ℕ → List ℕ
take_segments zero xs = []
take_segments (suc n) [] = []
take_segments (suc n) (x ∷ xs) = x ∷ take_segments n xs

unfoldable pub drop_segments : ℕ → List ℕ → List ℕ
drop_segments zero xs = xs
drop_segments (suc n) [] = []
drop_segments (suc n) (x ∷ xs) = drop_segments n xs

unfoldable pub groups : List ℕ → Text
groups xs = join (b':' ∷ []) (map lower_hex xs)

unfoldable pub dotted : ℕ → ℕ → Text
dotted high low =
    join (b'.' ∷ [])
      (decimal (high / 256) ∷ decimal (high % 256) ∷ decimal (low / 256) ∷ decimal (low % 256) ∷ [])

unfoldable pub is_ipv4_mapped : Ipv6 → Bool
is_ipv4_mapped a = a.s0 == 0 && a.s1 == 0 && a.s2 == 0 && a.s3 == 0 && a.s4 == 0 && a.s5 == 0xffff

-- `Display`: the form of RFC 5952.
unfoldable pub display : Ipv6 → Text
unfolding longest_run take_segments drop_segments groups dotted is_ipv4_mapped
display a =
    let (start, len) = longest_run (segments a) 0 (0, 0) (0, 0) in
    if is_ipv4_mapped a
    then text "::ffff:" ++ dotted a.s6 a.s7
    else if ltb 1 len
    then groups (take_segments start (segments a))
      ++ (text "::" ++ groups (drop_segments (start + len) (segments a)))
    else groups (segments a)
