-- ===== src/Manager/Bird/Answer.antt =====
-- src/manager.rs: when a reload of BIRD succeeds.
use dn42_autopeer.Base.{
  ℕ, ◌≡◌, ◌↔◌, refl, sym, ap, subst, List, [], ◌∷◌, ◌++◌, All, true, false, ◌⊎◌, inl, inr, none,
  arith, Bool-cases, nat_eq, ◌==◌,
}
use dn42_autopeer.Base.Text.{Text}
use dn42_autopeer.Result.{ok}
use dn42_autopeer.World.Types.{World}
use dn42_autopeer.World.Action.{answer, advance, lift, ◌>>=◌, continue}
use dn42_autopeer.World.Returns.{call-returns, lift-returns}
use dn42_autopeer.Manager.State.{PeerManager}
use dn42_autopeer.Manager.Bird.Reload.{
  ends_answer, is_refusal, skip_banner, read_answer, reload_bird,
}

-- The last line of an answer has a space behind its first four characters.
abbrev pub IsEnd : Text → Type 0
IsEnd line =
    (a : ℕ) × (b : ℕ) × (c : ℕ) × (d : ℕ) × (rest : Text) × (line ≡ a ∷ b ∷ c ∷ d ∷ 0x20 ∷ rest)

-- The line of a refusal begins with 8 or 9.
abbrev pub IsRefusal : Text → Type 0
IsRefusal line = (rest : Text) × ((line ≡ b'8' ∷ rest) ⊎ (line ≡ b'9' ∷ rest))

-- The first last line, with the lines behind it.
abbrev pub Splits : List Text → Text → List Text → Type 0
Splits lines line rest =
    (before : List Text) × All (λ l. IsEnd l → ⊥) before
    × IsEnd line
    × (lines ≡ before ++ line ∷ rest)

ends_answer_iff : (line : Text) → (ends_answer line ≡ true) ↔ IsEnd line
unfolding ends_answer
ends_answer_iff (a ∷ b ∷ c ∷ d ∷ e ∷ rest) =
    (λ h. (a, b, c, d, rest, ground (arith, h)), λ (_, _, _, _, _, h). ground (arith, h))
ends_answer_iff [] = (λ h. ground (arith, h), λ (_, _, _, _, _, h). ground (arith, h))
ends_answer_iff (a ∷ []) = (λ h. ground (arith, h), λ (_, _, _, _, _, h). ground (arith, h))
ends_answer_iff (a ∷ b ∷ []) = (λ h. ground (arith, h), λ (_, _, _, _, _, h). ground (arith, h))
ends_answer_iff (a ∷ b ∷ c ∷ []) = (λ h. ground (arith, h), λ (_, _, _, _, _, h). ground (arith, h))
ends_answer_iff (a ∷ b ∷ c ∷ d ∷ []) =
    (λ h. ground (arith, h), λ (_, _, _, _, _, h). ground (arith, h))

not_end : (line : Text) → ends_answer line ≡ false → IsEnd line → ⊥
not_end line e h =
    let t : ends_answer line ≡ true = (ends_answer_iff line).1 h in ground (arith, e, t)

is_refusal_iff : (line : Text) → (is_refusal line ≡ true) ↔ IsRefusal line
unfolding is_refusal
is_refusal_iff [] = (
  λ h. ground (arith, h),
  λ (rest, h). elim h [ inl e ↦ ground (arith, e) | inr e ↦ ground (arith, e) ],
)
is_refusal_iff (c ∷ line) = (
  λ h. elim (Bool-cases (c == b'8')) [
    | inl e ↦ (line, inl (ground (arith, e)))
    | inr e ↦ (line, inr (ground (arith, e, h)))
  ],
  λ (rest, h). elim h [ inl e ↦ ground (arith, e) | inr e ↦ ground (arith, e) ],
)

fine_iff : (line : Text) → (is_refusal line ≡ false) ↔ (IsRefusal line → ⊥)
fine_iff line = (
  λ e h. let t : is_refusal line ≡ true = (is_refusal_iff line).1 h in ground (arith, e, t),
  λ h. elim (Bool-cases (is_refusal line)) [
    | inl e ↦ absurd (h ((is_refusal_iff line).0 e))
    | inr e ↦ e
  ],
)

module _ (line : Text) (rest : List Text) where
  splits_nil : Splits [] line rest → ⊥
  splits_nil ([], h, e, q) = ground (arith, q)
  splits_nil (l ∷ before, h, e, q) = ground (arith, q)

  later :
      (l : Text) (lines : List Text)
      → (IsEnd l → ⊥)
      → Splits lines line rest
      → Splits (l ∷ lines) line rest
  later l lines apart (before, h, e, q) = (l ∷ before, (apart, h), e, ap (λ ls. l ∷ ls) q)

  -- The first line is the last line of the answer, or the split is behind it.
  first_line :
      (l : Text) (lines : List Text)
      → Splits (l ∷ lines) line rest
      → (IsEnd l × (line ≡ l) × (rest ≡ lines)) ⊎ ((IsEnd l → ⊥) × Splits lines line rest)
  first_line l lines ([], h, e, q) =
      let same : l ≡ line = ground (arith, q) in
      inl (subst IsEnd (sym same) e, sym same, ground (arith, q))
  first_line l lines (m ∷ before, h, e, q) =
      let same : l ≡ m = ground (arith, q) in
      inr (subst (λ n. IsEnd n → ⊥) (sym same) h.0, (before, h.1, e, ground (arith, q)))

skip_banner_iff :
    (lines rest : List Text)
    → (skip_banner lines ≡ ok rest) ↔ ((banner : Text) × Splits lines banner rest)
unfolding skip_banner
skip_banner_iff [] rest = (λ h. ground (arith, h), λ (banner, s). absurd (splits_nil banner rest s))
skip_banner_iff (l ∷ lines) rest = elim (Bool-cases (ends_answer l)) [
  | inl e ↦ (
    λ h.
        let same : lines ≡ rest = ground (arith, e, h) in
        (l, ([], tt, (ends_answer_iff l).0 e, ap (λ ls. l ∷ ls) same)),
    λ (banner, s). elim (first_line banner rest l lines s) [
      | inl h ↦ let same : rest ≡ lines = h.2 in ground (arith, e, same)
      | inr h ↦ absurd (h.0 ((ends_answer_iff l).0 e))
    ],
  )
  | inr e ↦
      let ih = skip_banner_iff lines rest in
      (
        λ h.
            let (banner, s) = ih.0 (ground (arith, e, h)) in
            (banner, later banner rest l lines (not_end l e) s),
        λ (banner, s). elim (first_line banner rest l lines s) [
          | inl h ↦ absurd (not_end l e h.0)
          | inr h ↦ let t : skip_banner lines ≡ ok rest = ih.1 (banner, h.1) in ground (arith, e, t)
        ],
      )
]

read_answer_iff :
    (lines : List Text) (output : Text)
    → (read_answer lines output ≡ ok tt)
      ↔ ((line : Text) × (rest : List Text) × Splits lines line rest × (IsRefusal line → ⊥))
unfolding read_answer
read_answer_iff [] output =
    (λ h. ground (arith, h), λ (line, rest, s, fine). absurd (splits_nil line rest s))
read_answer_iff (l ∷ lines) output = elim (Bool-cases (ends_answer l)) [
  | inl e ↦ (
    λ h. elim (Bool-cases (is_refusal l)) [
      | inl f ↦ ground (arith, e, f, h)
      | inr f ↦ (l, lines, ([], tt, (ends_answer_iff l).0 e, refl), (fine_iff l).0 f)
    ],
    λ (line, rest, s, fine). elim (first_line line rest l lines s) [
      | inl h ↦
          let same : line ≡ l = h.1 in
          let f : is_refusal l ≡ false = (fine_iff l).1 (subst (λ m. IsRefusal m → ⊥) same fine) in
          ground (arith, e, f)
      | inr h ↦ absurd (h.0 ((ends_answer_iff l).0 e))
    ],
  )
  | inr e ↦
      let ih = read_answer_iff lines (output ++ l) in
      (
        λ h.
            let (line, rest, s, fine) = ih.0 (ground (arith, e, h)) in
            (line, rest, later line rest l lines (not_end l e) s, fine),
        λ (line, rest, s, fine). elim (first_line line rest l lines s) [
          | inl h ↦ absurd (not_end l e h.0)
          | inr h ↦
              let t : read_answer lines (output ++ l) ≡ ok tt = ih.1 (line, rest, h.1, fine) in
              ground (arith, e, t)
        ],
      )
]

-- BIRD has accepted: it was reached, the command was written and its answer read without a failure
-- or a timeout, and behind the banner the answer's last line is no refusal.
abbrev pub IsAccepted : World → Type 0
IsAccepted w =
    ((w.answers 0).fault ≡ none)
    × ((rest : List Text) × ((banner : Text) × Splits (w.answers 1).lines banner rest)
        × ((w.answers 2).fault ≡ none)
        × ((w.answers 3).fault ≡ none)
        × ((line : Text) × (behind : List Text) × Splits rest line behind × (IsRefusal line → ⊥)))

-- A reload of BIRD succeeds exactly if the socket is reached, BIRD sends a banner, the command is
-- written and the answer read without a failure or a timeout, and the last line of the answer does
-- not begin with 8 or 9. The banner and the answer end with the first line that has a space behind
-- its first four characters; the four are not looked at otherwise.
pub reload_bird_iff :
    (self : PeerManager) (w : World) → ((reload_bird self w).0 ≡ ok tt) ↔ IsAccepted w
unfolding reload_bird answer ◌>>=◌ continue lift
reload_bird_iff self w = (
  λ h.
      let (connected, h1) = (call-returns tt _ _ w).0 h in
      let (rest, banner, h2) =
        (lift-returns tt (skip_banner (w.answers 1).lines) _ (advance (advance w))).0 h1 in
      let (written, h3) = (call-returns tt _ _ (advance (advance w))).0 h2 in
      let (read, h4) = (call-returns tt _ _ (advance (advance (advance w)))).0 h3 in
      (
        connected,
        (rest, (skip_banner_iff _ rest).0 banner, written, read, (read_answer_iff rest []).0 h4),
      ),
  λ (connected, (rest, banner, written, read, line)). (call-returns tt _ _ w).1 (
    connected,
    (lift-returns tt (skip_banner (w.answers 1).lines) _ (advance (advance w))).1 (
      rest,
      (skip_banner_iff _ rest).1 banner,
      (call-returns tt _ _ (advance (advance w))).1 (
        written,
        (call-returns tt _ _ (advance (advance (advance w)))).1
            (read, (read_answer_iff rest []).1 line),
      ),
    ),
  ),
)
