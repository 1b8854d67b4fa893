-- ===== src/World/Refuses.antt =====
-- Actions that fail and change nothing of the world but the answers that they consume.
use dn42_autopeer.Base.{arith, ◌≡◌, refl, Bool, true, false, not, if◌then◌else◌}
use dn42_autopeer.Error.{PeerError}
use dn42_autopeer.Result.{Result, ok, err}
use dn42_autopeer.World.Types.{World}
use dn42_autopeer.World.Keeps.{Keeps, IsStable}
use dn42_autopeer.World.Triple.{Ends, Triple, Triple-bind, Triple-Keeps}
use dn42_autopeer.World.Action.{Action, raise, ◌>>=◌}

pub record IsSame (before after : World) : Type 0 where
  pub db : after.db ≡ before.db
  pub links : after.links ≡ before.links
  pub bird : after.bird ≡ before.bird
  pub nft_batch : after.nft_batch ≡ before.nft_batch

pub IsSame-IsStable : (before : World) → IsStable (IsSame before)
IsSame-IsStable before = record {
  advances = λ w h. record { db = h.db; links = h.links; bird = h.bird; nft_batch = h.nft_batch };
}

pub IsSame-refl : (w : World) → IsSame w w
IsSame-refl w = record { db = refl; links = refl; bird = refl; nft_batch = refl }

-- The result is an error.
abbrev pub IsErr : {A : Type 0} → Result A → Type 0
IsErr (ok a) = ⊥
IsErr (err e) = Unit

-- From a world like `before`, the action fails and leaves a world like `before`.
abbrev pub Refuses : {A : Type 0} → World → Action A → Type 0
Refuses before m = Triple (IsSame before) m (λ _ _. ⊥) (λ _. IsSame before)

module _ {A : Type 0} {before : World} where
  pub Refuses-raise : (e : PeerError) → Refuses before (raise {A = A} e)
  unfolding raise
  Refuses-raise e = record { at = λ w h. h }

  pub Refuses-if :
      (b : Bool) (m n : Action A)
      → (b ≡ true → Refuses before m)
      → (b ≡ false → Refuses before n)
      → Refuses before (if b then m else n)
  Refuses-if true m n rm rn = rm refl
  Refuses-if false m n rm rn = rn refl

  -- What a refusal says of the action itself.
  pub Refuses-refusal :
      (m : Action A) → Refuses before m → IsErr (m before).0 × IsSame before (m before).1
  Refuses-refusal m t = go (m before) (t.at before (IsSame-refl before))
    where
      go :
          (o : Result A × World)
          → Ends (λ _ _. ⊥) (λ _. IsSame before) o.0 o.1
          → IsErr o.0 × IsSame before o.1
      go (ok a, w) h = absurd h
      go (err e, w) h = (tt, h)

module _ {A B : Type 0} {before : World} where
  -- An action that changes nothing, and then one that refuses.
  pub Refuses-after :
      (m : Action A) (f : A → Action B)
      → Keeps (IsSame before) m
      → ((a : A) → Refuses before (f a))
      → Refuses before (m >>= f)
  Refuses-after m f k r = Triple-bind m f (Triple-Keeps m k) r

  -- An action that refuses, whatever would follow.
  pub Refuses-first :
      (m : Action A) (f : A → Action B) → Refuses before m → Refuses before (m >>= f)
  Refuses-first m f r = Triple-bind m f r (λ a. record { at = λ w h. absurd h })

-- A branch on a result that is known to be `false`.
module _ {A : Type 0} {before : World} where
  pub Refuses-not :
      (b : Bool) (m n : Action A)
      → Refuses before m
      → Triple
          (λ w. (b ≡ false) × IsSame before w)
          (if not b then m else n)
          (λ _ _. ⊥)
          (λ _. IsSame before)
  Refuses-not true m n r = record { at = λ w h. ground (arith, h.0) }
  Refuses-not false m n r = record { at = λ w h. r.at w h.1 }
