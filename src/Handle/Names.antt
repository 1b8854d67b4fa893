-- ===== src/Handle/Names.antt =====
-- src/handle.rs: the names that `parse_peer_name` accepts.
use dn42_autopeer.Base.{
  ℕ, ◌≡◌, refl, [], ◌∷◌, true, false, not, ◌||◌, ltb, nat_eq, All, all, arith, Bool-cases, inl, inr,
  ◌⊎◌, ◌↔◌, ◌≤◌, length,
}
use dn42_autopeer.Base.Text.{Text, trim, utf8_len}
use dn42_autopeer.Result.{ok}
use dn42_autopeer.Handle.Parse.{
  is_lower_or_digit, is_name_char, valid_first, valid_rest, parse_peer_name,
}

-- `[a-z0-9]` and `[a-z0-9-]`
abbrev pub IsLowerOrDigit : ℕ → Type 0
IsLowerOrDigit c = (b'a' ≤ c × c ≤ b'z') ⊎ (b'0' ≤ c × c ≤ b'9')

abbrev pub IsNameChar : ℕ → Type 0
IsNameChar c = IsLowerOrDigit c ⊎ (c ≡ b'-')

-- `[a-z0-9][a-z0-9-]{0,31}`
abbrev pub IsPeerName : Text → Type 0
IsPeerName [] = ⊥
IsPeerName (c ∷ rest) = IsLowerOrDigit c × (All IsNameChar rest × length rest ≤ 31)

is_lower_or_digit-IsLowerOrDigit : (c : ℕ) → (is_lower_or_digit c ≡ true) ↔ IsLowerOrDigit c
unfolding is_lower_or_digit
is_lower_or_digit-IsLowerOrDigit c = ground arith

is_name_char-IsNameChar : (c : ℕ) → (is_name_char c ≡ true) ↔ IsNameChar c
unfolding is_lower_or_digit
is_name_char-IsNameChar c = ground arith

all_iff : (s : Text) → (all is_name_char s ≡ true) ↔ All IsNameChar s
all_iff [] = ground arith
all_iff (c ∷ s) = ground (arith, is_name_char-IsNameChar c, all_iff s)

-- A name has one byte for each character.
name-utf8_len : (s : Text) → all is_name_char s ≡ true → utf8_len s ≡ length s
unfolding is_lower_or_digit utf8_len
name-utf8_len [] h = refl
name-utf8_len (c ∷ s) h = ground (arith, name-utf8_len s)

accepted_iff :
    (n : Text)
    → ((not (valid_first n) || (not (valid_rest n) || ltb 32 (utf8_len n))) ≡ false) ↔ IsPeerName n
unfolding valid_first valid_rest utf8_len is_lower_or_digit
accepted_iff [] = ground arith
accepted_iff (c ∷ rest) = elim (Bool-cases (all is_name_char rest)) [
  | inl e ↦ ground (arith, all_iff rest, name-utf8_len rest e)
  | inr e ↦ ground (arith, all_iff rest)
]

-- `parse_peer_name` accepts a text exactly if it matches `[a-z0-9][a-z0-9-]{0,31}` once the white
-- space around it is taken off, and returns that part.
pub parse_peer_name_iff : (s n : Text) → (parse_peer_name s ≡ ok n) ↔ ((n ≡ trim s) × IsPeerName n)
unfolding parse_peer_name
parse_peer_name_iff s n =
    elim (Bool-cases
      (not (valid_first (trim s)) || (not (valid_rest (trim s)) || ltb 32 (utf8_len (trim s))))) [
        | inl e ↦ ground (arith, e, accepted_iff (trim s))
        | inr e ↦ ground (arith, e, accepted_iff (trim s))
      ]
