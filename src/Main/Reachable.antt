-- ===== src/Main/Reachable.antt =====
-- What holds in every state that the service reaches: an invariant of each thing that can happen.
use dn42_autopeer.Base.{Option, none, some, Bool, true, false, ◌⊎◌, inl, inr}
use dn42_autopeer.Base.Text.{Text}
use dn42_autopeer.External.{External}
use dn42_autopeer.World.Types.{World}
use dn42_autopeer.World.Action.{Action}
use dn42_autopeer.World.Keeps.{Keeps, Keeps-call}
use dn42_autopeer.Persist.Consistent.{Consistent, Consistent-IsStable}
use dn42_autopeer.Challenge.Keeps.{new_authorizer-Keeps}
use dn42_autopeer.Manager.Consistent.Sync.{recover-Consistent}
use dn42_autopeer.Main.Boot.{Boot, started, panic, boot_next, ◌>>=◌, expect, expect_some, assert}
use dn42_autopeer.Main.Startup.{Env, open_store, load_wg_keypair, main}
use dn42_autopeer.Main.Consistent.{serve-Consistent, turn-Consistent, nft_reconcile-Consistent}
use dn42_autopeer.Main.System.{
  System, Happens, starts, serves, wakes, reconciles, stops, Run, here, after,
}

-- What holds before a part of the start holds after it, also if it panics.
record Leaves {A : Type 0} (P : World → Type 0) (m : Boot A) : Type 0 where
  at : (w : World) → P w → P (m w).1

module _ {P : World → Type 0} where
  module _ {A : Type 0} where
    Leaves-started : (a : A) → Leaves P (started a)
    unfolding started
    Leaves-started a = record { at = λ w h. h }

    Leaves-expect : (message : Text) (m : Action A) → Keeps P m → Leaves P (expect message m)
    unfolding expect
    Leaves-expect message m k = record { at = λ w h. k.at w h }

    Leaves-expect_some : (message : Text) (o : Option A) → Leaves P (expect_some message o)
    unfolding expect_some
    Leaves-expect_some message none = record { at = λ w h. h }
    Leaves-expect_some message (some a) = record { at = λ w h. h }

  Leaves-assert : (message : Text) (test : Bool) → Leaves P (assert message test)
  unfolding assert panic started
  Leaves-assert message true = record { at = λ w h. h }
  Leaves-assert message false = record { at = λ w h. h }

  module _ {A B : Type 0} where
    Leaves-bind :
        (m : Boot A) (f : A → Boot B) → Leaves P m → ((a : A) → Leaves P (f a)) → Leaves P (m >>= f)
    unfolding ◌>>=◌ boot_next
    Leaves-bind m f km kf = record { at = λ w h. go (m w).0 (m w).1 (km.at w h) }
      where
        go : (r : Text ⊎ A) (w : World) → P w → P (boot_next r f w).1
        go (inl message) w h = h
        go (inr a) w h = (kf a).at w h

ruleset leaves_rules =
    (Leaves-started, Leaves-expect, Leaves-expect_some, Leaves-assert, Leaves-bind)

module _ ⦃lib : External⦄ (env : Env) where
  load_wg_keypair-Leaves : {P : World → Type 0} → Leaves P (load_wg_keypair env)
  unfolding load_wg_keypair
  load_wg_keypair-Leaves = search leaves_rules depth 9

  main-Leaves : Leaves Consistent (main env)
  unfolding main open_store
  main-Leaves =
      search
        (
          leaves_rules, load_wg_keypair-Leaves, new_authorizer-Keeps, Consistent-IsStable,
          recover-Consistent, Keeps-call,
        )
        depth 14

module _ ⦃lib : External⦄ where
  Happens-Consistent : {s t : System} → Happens s t → Consistent s.world → Consistent t.world
  Happens-Consistent (starts env) h = (main-Leaves env).at _ h
  Happens-Consistent (serves request) h = (serve-Consistent _ request).at _ h
  Happens-Consistent (wakes wake) h = (turn-Consistent _ _ wake).at _ h
  Happens-Consistent reconciles h = nft_reconcile-Consistent.at _ h
  Happens-Consistent stops h = h

  -- From consistent tables, the service only reaches consistent tables, whatever requests, wakes,
  -- ticks, stops and starts happen, in whatever order and with whatever failures of the calls: no
  -- two rows of `peers` share an ID, a port, or an ASN and a name, and no two nonces are the same.
  pub Run-Consistent :
      (first last : System) → Consistent first.world → Run first last → Consistent last.world
  Run-Consistent first last h here = h
  Run-Consistent first last h (after run happens) =
      Happens-Consistent happens (Run-Consistent first _ h run)
