-- ===== src/World/Follows.antt =====
-- Worlds that come after a world: the answers to come are a tail of its answers.
use dn42_autopeer.Base.{ℕ, suc, ◌+◌, ◌≡◌, refl, ◌∙◌, ap, arith}
use dn42_autopeer.World.Types.{World}
use dn42_autopeer.World.Keeps.{IsStable}

pub record Follows (before after : World) : Type 0 where
  pub taken : ℕ
  pub later : (n : ℕ) → after.answers n ≡ before.answers (n + taken)

pub Follows-refl : (w : World) → Follows w w
Follows-refl w = record { taken = 0; later = λ n. ap w.answers (omega arith) }

module _ (before : World) where
  pub Follows-IsStable : IsStable (Follows before)
  Follows-IsStable = record {
    advances = λ w h. record {
      taken = suc h.taken;
      later = λ n. h.later (suc n) ∙ ap before.answers (omega arith);
    };
  }

  -- Nothing has been written yet.
  pub record Reads (after : World) : Type 0 where
    pub db : after.db ≡ before.db
    pub follows : Follows before after

  pub Reads-IsStable : IsStable Reads
  Reads-IsStable = record {
    advances = λ w h. record { db = h.db; follows = Follows-IsStable.advances w h.follows };
  }

pub Reads-refl : (w : World) → Reads w w
Reads-refl w = record { db = refl; follows = Follows-refl w }
