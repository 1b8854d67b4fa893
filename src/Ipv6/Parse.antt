-- ===== src/Ipv6/Parse.antt =====
-- `Ipv6Addr::from_str`: the parser of `std::net`.
use dn42_autopeer.Base.{
  ℕ, zero, suc, ◌+◌, ◌-◌, ◌*◌, Bool, true, false, ◌&&◌, ◌||◌, not, List, [], ◌∷◌, ◌++◌, length, ltb,
  leb, if◌then◌else◌, ◌==◌, nat_eq, text_eq, Option, none, some,
}
use dn42_autopeer.Base.Text.{Text}
use dn42_autopeer.Ipv6.Segments.{Ipv6}

-- `char::to_digit`
to_digit : ℕ → ℕ → Option ℕ
to_digit radix c =
    let d : ℕ =
      if leb b'0' c && leb c b'9'
      then c - b'0'
      else if leb b'a' c && leb c b'f'
      then c - 87
      else if leb b'A' c && leb c b'F'
      then c - 55
      else 99 in
    if ltb d radix then some d else none

-- The loop of `read_number`, over the digits read so far: their value and how many they are.
number_loop : ℕ → ℕ → ℕ → Text → ℕ → ℕ → Option (ℕ × ℕ × Text)
number_loop radix top most [] value count = some (value, count, [])
number_loop radix top most (c ∷ s) value count = elim (to_digit radix c) [
  | none ↦ some (value, count, c ∷ s)
  | some d ↦
      let rest = number_loop radix top most s (value * radix + d) (count + 1) in
      if ltb top (value * radix + d) || ltb most (count + 1) then none else rest
]

leading_zero : Text → Bool
leading_zero [] = false
leading_zero (c ∷ s) = c == b'0'

-- `read_number(radix, Some(most), zeros)` into a type whose largest value is `top`.
read_number : ℕ → ℕ → ℕ → Bool → Text → Option (ℕ × Text)
read_number radix top most zeros s = elim (number_loop radix top most s 0 0) [
  | none ↦ none
  | some (value, count, rest) ↦
      if count == 0 || (not zeros && (leading_zero s && ltb 1 count))
      then none
      else some (value, rest)
]

read_char : ℕ → Text → Option Text
read_char c [] = none
read_char c (d ∷ s) = if c == d then some s else none

-- `read_separator`: nothing before the first item.
read_separator : ℕ → ℕ → Text → Option Text
read_separator sep zero s = some s
read_separator sep (suc i) s = read_char sep s

-- `read_ipv4_addr`: the numbers left to read, and the index of the next one.
read_ipv4 : ℕ → ℕ → Text → Option (List ℕ × Text)
read_ipv4 zero i s = some ([], s)
read_ipv4 (suc left) i s = elim (read_separator b'.' i s) [
  | none ↦ none
  | some s' ↦ elim (read_number 10 255 3 false s') [
    | none ↦ none
    | some (value, rest) ↦ elim (read_ipv4 left (i + 1) rest) [
      | none ↦ none
      | some (values, end) ↦ some (value ∷ values, end)
    ]
  ]
]

-- Two segments from the four numbers.
pair_up : List ℕ → List ℕ
pair_up (a ∷ b ∷ c ∷ d ∷ []) = (a * 256 + b) ∷ (c * 256 + d) ∷ []
pair_up _ = []

embedded : ℕ → ℕ → Text → Option (List ℕ × Text)
embedded left i s =
    if ltb 1 left
    then elim (read_separator b':' i s) [
      | none ↦ none
      | some s' ↦ elim (read_ipv4 4 0 s') [
        | none ↦ none
        | some (values, rest) ↦ some (pair_up values, rest)
      ]
    ]
    else none

-- `read_groups`: the segments, whether they end in an IPv4 address, and the text that is left.
read_groups : ℕ → ℕ → Text → List ℕ × Bool × Text
read_groups zero i s = ([], false, s)
read_groups (suc left) i s = elim (embedded (suc left) i s) [
  | some (two, rest) ↦ (two, true, rest)
  | none ↦ elim (read_separator b':' i s) [
    | none ↦ ([], false, s)
    | some s' ↦ elim (read_number 16 0xffff 4 true s') [
      | none ↦ ([], false, s)
      | some (value, rest) ↦
          let (more, v4, end) = read_groups left (i + 1) rest in (value ∷ more, v4, end)
    ]
  ]
]

zeros : ℕ → List ℕ
zeros zero = []
zeros (suc n) = 0 ∷ zeros n

of_segments : List ℕ → Option Ipv6
of_segments (a ∷ b ∷ c ∷ d ∷ e ∷ f ∷ g ∷ h ∷ []) =
    some (record { s0 = a; s1 = b; s2 = c; s3 = d; s4 = e; s5 = f; s6 = g; s7 = h })
of_segments _ = none

-- The part behind `::`.
read_tail : List ℕ → Text → Option (List ℕ × Text)
read_tail head s = elim (read_char b':' s) [
  | none ↦ none
  | some s' ↦ elim (read_char b':' s') [
    | none ↦ none
    | some s'' ↦
        let (tail, _, rest) = read_groups (8 - (length head + 1)) 0 s'' in
        some (head ++ (zeros (8 - length head - length tail) ++ tail), rest)
  ]
]

read_ipv6 : Text → Option (List ℕ × Text)
read_ipv6 s =
    let (head, v4, rest) = read_groups 8 0 s in
    if length head == 8 then some (head, rest) else if v4 then none else read_tail head rest

-- `parse::<Ipv6Addr>()`: the whole text is read.
unfoldable pub parse_ipv6 : Text → Option Ipv6
unfolding to_digit number_loop leading_zero read_number read_char read_separator read_ipv4 pair_up
    embedded read_groups zeros of_segments read_tail read_ipv6
parse_ipv6 s = elim (read_ipv6 s) [
  | none ↦ none
  | some (found, []) ↦ of_segments found
  | some (found, c ∷ rest) ↦ none
]

-- `IpAddr`
pub data IpAddr : Type 0 where
  v4 : List ℕ → IpAddr
  v6 : Ipv6 → IpAddr

-- `parse::<IpAddr>()`: an IPv4 address if the text begins with one, otherwise an IPv6 address.
unfoldable pub parse_ip_addr : Text → Option IpAddr
unfolding read_ipv4 read_separator read_char read_number number_loop leading_zero to_digit
parse_ip_addr s = elim (read_ipv4 4 0 s) [
  | some (numbers, []) ↦ some (v4 numbers)
  | some (numbers, c ∷ rest) ↦ none
  | none ↦ elim (parse_ipv6 s) [ none ↦ none | some address ↦ some (v6 address) ]
]
