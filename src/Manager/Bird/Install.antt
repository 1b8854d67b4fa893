-- ===== src/Manager/Bird/Install.antt =====
-- src/manager.rs: what a reader of `current` finds while a generation is installed, and after.
use dn42_autopeer.Base.{
  ◌≡◌, refl, ap, sym, subst, ◌∙◌, ◌⊎◌, inl, inr, List, [], ◌∷◌, ◌++◌, Option, none, some, arith,
  nat_eq, text_eq, beq_refl,
}
use dn42_autopeer.Base.Text.{Text, text}
use dn42_autopeer.Error.{PeerError}
use dn42_autopeer.Result.{ok}
use dn42_autopeer.World.Types.{World, BirdDir, Failure}
use dn42_autopeer.World.Action.{call, ask, respond, advance, outcome, gets, raise}
use dn42_autopeer.World.Keeps.{Keeps-outcome}
use dn42_autopeer.World.Triple.{
  Triple, Triple-bind, Triple-raise, Triple-after, Triple-before, Triple-try, Triple-fact,
  Triple-Keeps,
}
use dn42_autopeer.Manager.State.{PeerManager, io_error}
use dn42_autopeer.Manager.Bird.Files.{
  Files, dir_files, target_of, resolve, current_files, current_path, switch_current,
  remove_old_generations,
}
use dn42_autopeer.Manager.Bird.Sync.{exists, create_dir, restore, roll_back, no_target, install}
use dn42_autopeer.Manager.Bird.Directory.{NoDir, dir_files-NoDir, resolve-not}
use dn42_autopeer.Manager.Bird.Write.{At, Left, bird-call, AreShown, AreDistinct, write_all-At}
use dn42_autopeer.Manager.Bird.Clean.{Installed, Installed-shows, remove_old_generations-Keeps}
use dn42_autopeer.Manager.Bird.Switch.{
  kept, reload_bird-Keeps, unique_suffix-At, sync_directory-At, atomic_switch_current-At,
  remove_optional-At,
}

-- The directory before: its generations, and the target of the link.
module _ (gens : List (Text × Files)) (t : Text) (old desired : Files)
    (leads : resolve t gens ≡ some old) where
  -- A reader finds the old files, the desired files, or no link.
  abbrev pub Safe : BirdDir → Type 0
  Safe bird =
      (current_files bird ≡ some old)
      ⊎ (current_files bird ≡ some desired)
      ⊎ (current_files bird ≡ none)

  module _ (name : Text) (fresh : NoDir name gens) where
    abbrev staged : Files → BirdDir
    staged files = record { generations = (name, files) ∷ gens; current = some t }

    abbrev switched : BirdDir
    switched = record { generations = (name, desired) ∷ gens; current = some (target_of name) }

    staged-old : (files : Files) → current_files (staged files) ≡ some old
    unfolding current_files resolve
    staged-old files = ground (arith, resolve-not name t gens old fresh leads, leads)

    staged-Safe : (files : Files) → Safe (staged files)
    staged-Safe files = inl (staged-old files)

    switched-desired : current_files switched ≡ some desired
    unfolding current_files resolve
    switched-desired = ground (arith, beq_refl (target_of name))

    switched-Safe : Safe switched
    switched-Safe = inr (inl switched-desired)

    unlinked-Safe : Safe (record switched { current = none })
    unfolding current_files
    unlinked-Safe = inr (inr refl)

    -- What was read of the link before: its target, or nothing.
    read-before :
        (self : PeerManager)
        → Triple
            (At (staged desired))
            (outcome (ask (λ a w. ok w.bird.current) (io_error (current_path self))))
            (λ r w.
              ((no_target self r ≡ some t) ⊎ (no_target self r ≡ none)) × At (staged desired) w)
            (Left Safe)
    unfolding outcome ask no_target
    read-before self = record { at = λ w h. go w (w.answers 0).fault h }
      where
        go :
            (w : World) (f : Option Failure)
            → At (staged desired) w
            → ((no_target self
                    (respond f (ok w.bird.current) (io_error (current_path self)) (advance w)).0
                  ≡ some t)
                ⊎ (no_target self
                      (respond f (ok w.bird.current) (io_error (current_path self)) (advance w)).0
                    ≡ none))
              × At
                  (staged desired)
                  (respond f (ok w.bird.current) (io_error (current_path self)) (advance w)).1
        go w none h = (inl (ap (λ (b : BirdDir). b.current) h), h)
        go w (some f) h = (inr refl, h)

    restore-Safe :
        (self : PeerManager) (target : Option Text)
        → (target ≡ some t) ⊎ (target ≡ none)
        → Triple (At switched) (restore self target) (λ _ w. Safe w.bird) (Left Safe)
    unfolding restore switch_current
    restore-Safe self none h = remove_optional-At Safe switched switched-Safe unlinked-Safe _
    restore-Safe self (some x) (inl e) =
        let back : Safe (record switched { current = some x }) =
          subst (λ o. Safe (record switched { current = o })) (sym e) (staged-Safe desired) in
        Triple-after _ _ (λ _ w k. subst Safe (sym k) back)
          (atomic_switch_current-At Safe switched x switched-Safe back _)
    restore-Safe self (some x) (inr e) = absurd (ground (arith, e))

    roll_back-Safe :
        (self : PeerManager) (target : Option Text) (e : PeerError)
        → (target ≡ some t) ⊎ (target ≡ none)
        → {Q : Unit → World → Type 0} → Triple (At switched) (roll_back self target e) Q (Left Safe)
    unfolding roll_back
    roll_back-Safe self target e h =
        Triple-try _ _ _ (restore-Safe self target h)
          (λ _.
            Triple-bind _ _
              (kept _ (Keeps-outcome _ (reload_bird-Keeps Safe self)) (λ _ w h. h) (λ _ w h. h))
              (λ _. Triple-raise e (λ w h. h)))
          (λ x. Triple-raise _ (λ w h. h))

    switched-Installed : (w : World) → At switched w → Installed name desired w
    unfolding resolve
    switched-Installed w h = record {
      link = ap (λ (b : BirdDir). b.current) h;
      files = ap (λ (b : BirdDir). resolve (target_of name) b.generations) h ∙ first;
    }
      where
        first : resolve (target_of name) ((name, desired) ∷ gens) ≡ some desired
        first = ground (arith, beq_refl (target_of name))

    remove_old-Installed :
        (self : PeerManager)
        → Triple
            (At switched)
            (remove_old_generations self name)
            (λ _ w. current_files w.bird ≡ some desired)
            (Left Safe)
    remove_old-Installed self = Triple-before _ switched-Installed (
        kept _ (remove_old_generations-Keeps name desired self)
          (λ _ w h. Installed-shows name desired w h)
          (λ _ w h. inr (inl (Installed-shows name desired w h))))

  abbrev pub before : BirdDir
  before = record { generations = gens; current = some t }

  before-Safe : Safe before
  unfolding current_files
  before-Safe = inl leads

  look-At :
      (name : Text)
      → Triple
          (At before)
          (gets (λ w. dir_files name w.bird.generations))
          (λ present w. (present ≡ dir_files name gens) × At before w)
          (Left Safe)
  unfolding gets
  look-At name = record { at = λ w h. (ap (λ (b : BirdDir). dir_files name b.generations) h, h) }

  create_dir-At :
      (name path : Text)
      → Triple
          (At before)
          (create_dir name path)
          (λ _ w.
            NoDir name gens × At (record { generations = (name, []) ∷ gens; current = some t }) w)
          (Left Safe)
  unfolding create_dir
  create_dir-At name path = Triple-bind _ _ (look-At name) (λ present. Triple-fact _ (on present))
    where
      on :
          (present : Option Files)
          → present ≡ dir_files name gens
          → Triple
              (At before)
              (elim present [
                | some _ ↦ raise (PeerError.bird_config_io exists path)
                | none ↦
                    call
                      (λ a w. record w {
                        bird = record w.bird { generations = (name, []) ∷ w.bird.generations };
                      })
                      (io_error path)
              ])
              (λ _ w.
                NoDir name gens
                × At (record { generations = (name, []) ∷ gens; current = some t }) w)
              (Left Safe)
      on (some files) e = Triple-raise _ (λ w h. subst Safe (sym h) before-Safe)
      on none e =
          let fresh = dir_files-NoDir name gens (sym e) in
          Triple-after _ _ (λ _ w h. (fresh, h))
            (bird-call Safe before (staged name fresh []) before-Safe (staged-Safe name fresh []) _
              _
              (λ a w h.
                ap (λ (b : BirdDir). record b { generations = (name, []) ∷ b.generations }) h))

  pub install-Safe :
      (self : PeerManager)
      → AreShown desired
      → AreDistinct [] desired
      → Triple
          (At before)
          (install self desired)
          (λ _ w. current_files w.bird ≡ some desired)
          (Left Safe)
  unfolding install switch_current
  install-Safe self shown distinct =
      Triple-bind _ _ (unique_suffix-At Safe before before-Safe) λ suffix.
        let name = text "generation-" ++ suffix in
        Triple-bind _ _ (create_dir-At name _) λ _. Triple-fact _ λ fresh.
          Triple-bind _ _
            (write_all-At name gens (some t) fresh Safe (staged-Safe name fresh) _ [] desired shown
              distinct)
            λ _.
              Triple-bind _ _
                (sync_directory-At Safe (staged name fresh desired) (staged-Safe name fresh desired)
                  _)
                λ _. Triple-bind _ _ (read-before name fresh self) λ read. Triple-fact _ λ was.
                  Triple-bind _ _
                    (atomic_switch_current-At Safe (staged name fresh desired) (target_of name)
                      (staged-Safe name fresh desired) (switched-Safe name fresh) _)
                    λ _.
                      Triple-try _ _ _
                        (Triple-Keeps _ (reload_bird-Keeps (λ b. b ≡ switched name fresh) self))
                        (λ _. remove_old-Installed name fresh self)
                        (λ e. roll_back-Safe name fresh self _ e was)
