-- ===== src/Template/Escape.antt =====
-- src/template.rs: what the escaper writes.
use dn42_autopeer.Base.{
  ℕ, ◌≡◌, refl, ◌∙◌, sym, ap, subst, ◌++◌, [], ◌∷◌, false, if◌then◌else◌, ◌==◌, nat_eq, All,
  All-append, append_assoc, append-nil, arith,
}
use dn42_autopeer.Base.Text.{Text}
use dn42_autopeer.Template.{is_ascii_control, write_escaped_char, write_escaped_str, escaped}

-- What `write_escaped_char` writes for each character, one after the other.
unfoldable pub each : Text → Text
each [] = []
each (c ∷ s) = write_escaped_char c ++ each s

-- The character is appended as the other method writes it, and the loop goes on.
write_escaped_str-step :
    (dest : Text) (c : ℕ) (s : Text)
    → write_escaped_str dest (c ∷ s) ≡ write_escaped_str (dest ++ write_escaped_char c) s
unfolding write_escaped_str write_escaped_char
write_escaped_str-step dest c s = ground (arith, append-nil dest)

-- The two methods of the escaper agree: `write_escaped_str` appends to what has been written what
-- `write_escaped_char` writes for each character in turn.
pub write_escaped_str-each : (dest s : Text) → write_escaped_str dest s ≡ dest ++ each s
unfolding write_escaped_str each
write_escaped_str-each dest [] = sym (append-nil dest)
write_escaped_str-each dest (c ∷ s) =
    write_escaped_str-step dest c s
    ∙ write_escaped_str-each (dest ++ write_escaped_char c) s
    ∙ append_assoc dest (write_escaped_char c) (each s)

abbrev pub IsPlain : ℕ → Type 0
IsPlain c = is_ascii_control c ≡ false

char-IsPlain : (c : ℕ) → All IsPlain (write_escaped_char c)
unfolding write_escaped_char
char-IsPlain c = ground arith

each-IsPlain : (s : Text) → All IsPlain (each s)
unfolding each
each-IsPlain [] = tt
each-IsPlain (c ∷ s) = All-append IsPlain _ _ (char-IsPlain c) (each-IsPlain s)

-- No text that the escaper writes holds an ASCII control character, a line break included, so a value
-- stays on its line of the configuration.
pub escaped-IsPlain : (s : Text) → All IsPlain (escaped s)
escaped-IsPlain s = subst (All IsPlain) (sym (write_escaped_str-each [] s)) (each-IsPlain s)

-- Reads escaped text: a backslash stands for the character behind it.
abbrev pub unescape : Text → Text
unescape [] = []
unescape (c ∷ []) = c ∷ []
unescape (c ∷ d ∷ s) =
    let after = unescape s in
    let later = unescape (d ∷ s) in if c == b'\\' then d ∷ after else c ∷ later

unescape-char :
    (c : ℕ) (s : Text) → IsPlain c → unescape (write_escaped_char c ++ s) ≡ c ∷ unescape s
unfolding write_escaped_char
unescape-char c [] h = ground arith
unescape-char c (d ∷ s) h = ground arith

unescape-each : (s : Text) → All IsPlain s → unescape (each s) ≡ s
unfolding each
unescape-each [] h = refl
unescape-each (c ∷ s) h = unescape-char c (each s) h.0 ∙ ap (λ t. c ∷ t) (unescape-each s h.1)

-- The escaper loses nothing of a text without ASCII control characters: reading the escaped text gives
-- the text.
pub unescape-escaped : (s : Text) → All IsPlain s → unescape (escaped s) ≡ s
unescape-escaped s h = ap unescape (write_escaped_str-each [] s) ∙ unescape-each s h
