-- ===== src/Main/Boot.antt =====
-- Computations of the start, which end in a panic with its message, or in a value.
use dn42_autopeer.Base.{◌⊎◌, inl, inr, Option, none, some, Bool, if◌then◌else◌}
use dn42_autopeer.Base.Text.{Text}
use dn42_autopeer.Result.{Result, ok, err}
use dn42_autopeer.World.Types.{World}
use dn42_autopeer.World.Action.{Action}

abbrev pub Boot : Type 0 → Type 0
Boot A = World → (Text ⊎ A) × World

module _ {A : Type 0} where
  unfoldable pub started : A → Boot A
  started a w = (inr a, w)

  unfoldable pub panic : Text → Boot A
  panic message w = (inl message, w)

module _ {A B : Type 0} where
  unfoldable pub boot_next : Text ⊎ A → (A → Boot B) → Boot B
  boot_next (inl message) f w = (inl message, w)
  boot_next (inr a) f w = f a w

  infixl 5 ◌>>=◌ ◌>>◌
  unfoldable pub ◌>>=◌ : Boot A → (A → Boot B) → Boot B
  unfolding boot_next
  ◌>>=◌ m f w = let (r, w') = m w in boot_next r f w'

  abbrev pub ◌>>◌ : Boot A → Boot B → Boot B
  m >> n = m >>= λ _. n

module _ {A : Type 0} where
  -- `expect` on a result: its message begins that of the panic.
  unfoldable pub settled : Text → Result A → Text ⊎ A
  settled message (ok a) = inr a
  settled message (err e) = inl message

  unfoldable pub expect : Text → Action A → Boot A
  unfolding settled
  expect message m w = let (r, w') = m w in (settled message r, w')

  unfoldable pub expect_some : Text → Option A → Boot A
  unfolding panic started
  expect_some message none = panic message
  expect_some message (some a) = started a

-- `assert!`
unfoldable pub assert : Text → Bool → Boot Unit
unfolding panic started
assert message test = if test then started tt else panic message
