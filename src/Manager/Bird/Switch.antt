-- ===== src/Manager/Bird/Switch.antt =====
-- src/manager.rs: the link `current` is switched in one step.
use dn42_autopeer.Base.{ap, sym, subst, Option, none, some}
use dn42_autopeer.Base.Text.{Text}
use dn42_autopeer.Error.{PeerError}
use dn42_autopeer.Result.{Result, ok, err}
use dn42_autopeer.World.Types.{World, BirdDir, Failure}
use dn42_autopeer.World.Action.{Action, call, outcome, raise, ◌>>◌}
use dn42_autopeer.World.Keeps.{
  Keeps, IsStable, Keeps-outcome, Keeps-call, Keeps-if, Keeps-pure, Keeps-raise, keeps_rules,
}
use dn42_autopeer.World.Triple.{
  Ends, Triple, Triple-bind, Triple-pure, Triple-raise, Triple-try, Triple-outcome,
}
use dn42_autopeer.Manager.State.{PeerManager}
use dn42_autopeer.Manager.Bird.Files.{
  unique_suffix, sync_directory, rename_current, atomic_switch_current, remove_optional, or_missing,
}
use dn42_autopeer.Manager.Bird.Reload.{reload_bird}
use dn42_autopeer.Manager.Bird.Write.{At, Left, bird-call, bird-answer}

module _ {A : Type 0} {P : World → Type 0} {Q : A → World → Type 0}
    {E : PeerError → World → Type 0} where
  -- An invariant as a pre- and a postcondition.
  pub kept :
      (m : Action A)
      → Keeps P m
      → ((a : A) (w : World) → P w → Q a w)
      → ((e : PeerError) (w : World) → P w → E e w)
      → Triple P m Q E
  kept m k q x = record { at = λ w h. go (m w).0 (m w).1 (k.at w h) }
    where
      go : (r : Result A) (w : World) → P w → Ends Q E r w
      go (ok a) w h = q a w h
      go (err e) w h = x e w h

pub bird-stable : (F : BirdDir → Type 0) → IsStable (λ w. F w.bird)
bird-stable F = record { advances = λ w h. h }

pub reload_bird-Keeps :
    (F : BirdDir → Type 0) (self : PeerManager) → Keeps (λ w. F w.bird) (reload_bird self)
unfolding reload_bird
reload_bird-Keeps F self = search (keeps_rules, Keeps-call, bird-stable F) depth 9

module _ (F : BirdDir → Type 0) (b : BirdDir) (fb : F b) where
  pub idle :
      (wrap : Failure → PeerError) → Triple (At b) (call (λ a w. w) wrap) (λ _. At b) (Left F)
  idle wrap = bird-call F b b fb fb _ _ (λ a w h. h)

  pub unique_suffix-At : Triple (At b) unique_suffix (λ _. At b) (Left F)
  unfolding unique_suffix
  unique_suffix-At = Triple-bind _ _ (bird-answer b F) (λ a. Triple-pure _ (λ w h. h))

  pub sync_directory-At : (path : Text) → Triple (At b) (sync_directory path) (λ _. At b) (Left F)
  unfolding sync_directory
  sync_directory-At path = Triple-bind _ _ (idle _) (λ _. idle _)

  abbrev pub linked : Option Text → BirdDir
  linked target = record b { current = target }

  -- An error after a call that leaves the directory alone.
  after_error :
      (m : Action Unit) (e : PeerError)
      → Keeps (λ w. F w.bird) m
      → {Q : Unit → World → Type 0} → Triple (λ w. F w.bird) (do outcome m; raise e) Q (Left F)
  after_error m e k =
      Triple-bind _ _ (kept _ (Keeps-outcome _ k) (λ _ w h. h) (λ _ w h. h))
        (λ _. Triple-raise e (λ w h. h))

  module _ (target : Text) (fl : F (linked (some target))) where
    rename_current-At :
        (root temporary : Text)
        → Triple
            (At b)
            (rename_current root temporary target)
            (λ _. At (linked (some target)))
            (Left F)
    unfolding rename_current
    rename_current-At root temporary =
        Triple-try _ _ _
          (bird-call F b (linked (some target)) fb fl _ _
            (λ a w h. ap (λ (d : BirdDir). record d { current = some target }) h))
          (λ _. Triple-pure tt (λ w h. h))
          (λ e. after_error _ e (Keeps-call _ _ (bird-stable F) (λ a w h. h)))

-- The switch leaves the link on the target, or one of the two states.
module _ (F : BirdDir → Type 0) (b : BirdDir) (target : Text) (fb : F b)
    (fl : F (record b { current = some target })) where
  pub atomic_switch_current-At :
      (root : Text)
      → Triple
          (At b)
          (atomic_switch_current root target)
          (λ _. At (record b { current = some target }))
          (Left F)
  unfolding atomic_switch_current
  atomic_switch_current-At root = Triple-bind _ _ (unique_suffix-At F b fb) λ suffix.
      Triple-bind _ _ (idle F b fb _) λ _.
        Triple-bind _ _ (rename_current-At F b fb target fl root _)
          λ _. sync_directory-At F (record b { current = some target }) fl root

or_missing-Keeps :
    (F : BirdDir → Type 0) (r : Result (Unit {0})) → Keeps (λ w. F w.bird) (or_missing r)
unfolding or_missing
or_missing-Keeps F (ok _) = Keeps-pure tt
or_missing-Keeps F (err (PeerError.bird_config_io source path)) =
    Keeps-if source.is_not_found _ _ (λ _. Keeps-pure tt) (λ _. Keeps-raise _)
or_missing-Keeps F (err e) = Keeps-raise e

-- The removal of the link.
module _ (F : BirdDir → Type 0) (b : BirdDir) (fb : F b)
    (fn : F (record b { current = none })) where
  missing :
      (r : Result (Unit {0}))
      → Triple
          (Ends (λ _. At (record b { current = none })) (Left F) r)
          (or_missing r)
          (λ _ w. F w.bird)
          (Left F)
  unfolding or_missing
  missing (ok _) = Triple-pure tt (λ w h. subst F (sym h) fn)
  missing (err e) = kept _ (or_missing-Keeps F (err e)) (λ _ w h. h) (λ _ w h. h)

  pub remove_optional-At :
      (path : Text) → Triple (At b) (remove_optional path) (λ _ w. F w.bird) (Left F)
  unfolding remove_optional
  remove_optional-At path =
      Triple-bind _ _
        (Triple-outcome _ (
          bird-call F b (record b { current = none }) fb fn _ _
            (λ a w h. ap (λ (d : BirdDir). record d { current = none }) h)))
        missing
