-- ===== src/Result.antt =====
-- `Result<T, PeerError>` and the `?` operator.
use dn42_autopeer.Base.{◌≡◌, refl, arith, Option, none, some}
use dn42_autopeer.Error.{PeerError}

pub data Result {κ} (T : Type κ) : Type κ where
  ok : T → Result T
  err : PeerError → Result T

infixl 5 ◌>>=◌
abbrev pub ◌>>=◌ {κ κ'} : {T : Type κ} {U : Type κ'} → Result T → (T → Result U) → Result U
ok t >>= next = next t
err error >>= next = err error

-- `Option::ok_or_else`
abbrev pub ok_or {ℓ} : {A : Type ℓ} → Option A → PeerError → Result A
ok_or none e = err e
ok_or (some a) e = ok a

-- `Option<Result<T, E>>::transpose` after a `map`.
abbrev pub traverse {ℓ κ} :
    {A : Type ℓ} {B : Type κ} → (A → Result B) → Option A → Result (Option B)
traverse f none = ok none
traverse f (some a) = f a >>= λ b. ok (some b)

-- A chain that returns has come through its first part.
pub bind_ok :
    {A B : Type 0} (r : Result A) (f : A → Result B) (b : B)
    → (r >>= f) ≡ ok b
    → (a : A) × (r ≡ ok a) × (f a ≡ ok b)
bind_ok (ok a) f b e = (a, refl, e)
bind_ok (err x) f b e = ground (arith, e)
