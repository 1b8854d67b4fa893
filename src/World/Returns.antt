-- ===== src/World/Returns.antt =====
-- When a chain of calls returns: each of its parts does.
use dn42_autopeer.Base.{◌≡◌, ◌↔◌, refl, arith, Option, none, some}
use dn42_autopeer.Error.{PeerError}
use dn42_autopeer.Result.{Result, ok, err}
use dn42_autopeer.World.Types.{World, Failure}
use dn42_autopeer.World.Action.{Action, advance, call, lift, settle, continue, ◌>>=◌}

module _ {B : Type 0} (b : B) where
  settle-returns :
      (f : Option Failure) (wrap : Failure → PeerError) (k : Unit → Action B) (w : World)
      → ((continue (settle f (λ v. v) wrap w).0 k (settle f (λ v. v) wrap w).1).0 ≡ ok b)
        ↔ ((f ≡ none) × ((k tt w).0 ≡ ok b))
  unfolding settle continue
  settle-returns none wrap k w = (λ h. (refl, h), λ h. h.1)
  settle-returns (some f) wrap k w = (λ h. ground (arith, h), λ h. ground (arith, h.0))

  -- A call with no effect, and then the rest.
  pub call-returns :
      (wrap : Failure → PeerError) (k : Unit → Action B) (w : World)
      → (((call (λ a v. v) wrap >>= k) w).0 ≡ ok b)
        ↔ (((w.answers 0).fault ≡ none) × ((k tt (advance w)).0 ≡ ok b))
  unfolding call ◌>>=◌
  call-returns wrap k w = settle-returns (w.answers 0).fault wrap k (advance w)

  -- A value that may be an error, and then the rest.
  pub lift-returns :
      {A : Type 0} (r : Result A) (k : A → Action B) (w : World)
      → (((lift r >>= k) w).0 ≡ ok b) ↔ ((a : A) × (r ≡ ok a) × ((k a w).0 ≡ ok b))
  unfolding lift ◌>>=◌ continue
  lift-returns (ok a) k w = (λ h. (a, refl, h), λ (c, e, h). ground (arith, e, h))
  lift-returns (err x) k w = (λ h. ground (arith, h), λ (c, e, h). ground (arith, e))
