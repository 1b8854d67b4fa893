-- ===== src/Manager/Bird/Keeps.antt =====
-- src/manager.rs: what is done to the configuration of BIRD leaves the database alone.
use dn42_autopeer.Base.{List, [], ◌∷◌, Bool, false, Option, none, some}
use dn42_autopeer.Base.Text.{Text}
use dn42_autopeer.Error.{PeerError}
use dn42_autopeer.Result.{Result, ok, err}
use dn42_autopeer.Peer.{Peer}
use dn42_autopeer.World.Types.{Db}
use dn42_autopeer.World.Keeps.{
  Keeps, IsStable, Keeps-bind, Keeps-outcome, Keeps-elim_Result, Keeps-elim_Option, Keeps-call,
  Keeps-if, Keeps-pure, Keeps-raise, Keeps-gets, Keeps-lift, Keeps-ask, Keeps-for_each, keeps_rules,
}
use dn42_autopeer.Manager.State.{PeerManager}
use dn42_autopeer.Manager.Bird.Files.{
  Files, unique_suffix, sync_directory, rename_current, atomic_switch_current, switch_current,
  ensure_bird_layout, read_entries, or_absent, current_generation_matches, remove_optional,
  or_missing, write_atomic, is_old, remove_dirs, remove_old_generations,
}
use dn42_autopeer.Manager.Bird.Reload.{reload_bird}
use dn42_autopeer.Manager.Bird.Sync.{create_dir, restore, roll_back, install, sync_bird_configs_for}

module _ (P : Db → Type 0) where
  stable : IsStable (λ w. P w.db)
  stable = record { advances = λ w h. h }

  unique_suffix-Keeps : Keeps (λ w. P w.db) unique_suffix
  unfolding unique_suffix
  unique_suffix-Keeps = search (keeps_rules, stable)

  sync_directory-Keeps : (path : Text) → Keeps (λ w. P w.db) (sync_directory path)
  unfolding sync_directory
  sync_directory-Keeps path = search (keeps_rules, Keeps-call, stable)

  rename_current-Keeps :
      (root temporary target : Text) → Keeps (λ w. P w.db) (rename_current root temporary target)
  unfolding rename_current
  rename_current-Keeps root temporary target =
      Keeps-bind _ _ (Keeps-outcome _ (Keeps-call _ _ stable (λ a w h. h))) λ r.
        Keeps-elim_Result r _ _ (λ _. Keeps-pure tt) (λ e. search (keeps_rules, Keeps-call, stable))

  switch-Keeps : (root target : Text) → Keeps (λ w. P w.db) (atomic_switch_current root target)
  unfolding atomic_switch_current
  switch-Keeps root target =
      search
        (
          keeps_rules, Keeps-call, stable, unique_suffix-Keeps, rename_current-Keeps,
          sync_directory-Keeps,
        )
        depth 9

  ensure_bird_layout-Keeps : (self : PeerManager) → Keeps (λ w. P w.db) (ensure_bird_layout self)
  unfolding ensure_bird_layout switch_current
  ensure_bird_layout-Keeps self = search (keeps_rules, Keeps-call, stable, switch-Keeps) depth 9

  read_entries-Keeps :
      (path : Text) (entries actual : Files)
      → Keeps (λ w. P w.db) (read_entries path entries actual)
  unfolding read_entries
  read_entries-Keeps path [] actual = search (keeps_rules, Keeps-call, stable)
  read_entries-Keeps path ((name, content) ∷ entries) actual =
      search (keeps_rules, Keeps-call, stable, read_entries-Keeps path entries) depth 9

  or_absent-Keeps : (r : Result (Option Files)) → Keeps (λ w. P w.db) (or_absent r)
  unfolding or_absent
  or_absent-Keeps (ok entries) = Keeps-pure entries
  or_absent-Keeps (err (PeerError.bird_config_io source path)) =
      Keeps-if source.is_not_found _ _ (λ _. Keeps-pure none) (λ _. Keeps-raise _)
  or_absent-Keeps (err e) = Keeps-raise e

  matches-Keeps :
      (self : PeerManager) (desired : Files)
      → Keeps (λ w. P w.db) (current_generation_matches self desired)
  unfolding current_generation_matches
  matches-Keeps self desired = Keeps-bind _ _ (Keeps-outcome _ (Keeps-ask _ _ stable)) λ read.
      Keeps-bind _ _ (or_absent-Keeps read) λ entries.
        Keeps-elim_Option entries _ _ (Keeps-pure false)
          (λ files. search (keeps_rules, read_entries-Keeps))

  or_missing-Keeps : (r : Result Unit) → Keeps (λ w. P w.db) (or_missing r)
  unfolding or_missing
  or_missing-Keeps (ok _) = Keeps-pure tt
  or_missing-Keeps (err (PeerError.bird_config_io source path)) =
      Keeps-if source.is_not_found _ _ (λ _. Keeps-pure tt) (λ _. Keeps-raise _)
  or_missing-Keeps (err e) = Keeps-raise e

  remove_optional-Keeps : (path : Text) → Keeps (λ w. P w.db) (remove_optional path)
  unfolding remove_optional
  remove_optional-Keeps path =
      Keeps-bind _ _ (Keeps-outcome _ (Keeps-call _ _ stable (λ a w h. h))) or_missing-Keeps

  write_atomic-Keeps :
      (path dir name content : Text) → Keeps (λ w. P w.db) (write_atomic path dir name content)
  unfolding write_atomic
  write_atomic-Keeps path dir name content = search (keeps_rules, Keeps-call, stable) depth 12

  remove_dirs-Keeps :
      (path current : Text) (names : List Text)
      → Keeps (λ w. P w.db) (remove_dirs path current names)
  unfolding remove_dirs
  remove_dirs-Keeps path current [] = Keeps-pure tt
  remove_dirs-Keeps path current (name ∷ names) =
      let later = remove_dirs-Keeps path current names in
      Keeps-bind _ _ (Keeps-outcome _ (Keeps-call _ _ stable (λ a w h. h))) λ r.
        Keeps-elim_Result r _ _
          (λ _.
            Keeps-if (is_old current name) _ _
              (λ _.
                Keeps-bind _ _ (Keeps-outcome _ (Keeps-call _ _ stable (λ a w h. h))) (λ _. later))
              (λ _. later))
          (λ e. Keeps-pure tt)

  remove_old_generations-Keeps :
      (self : PeerManager) (name : Text) → Keeps (λ w. P w.db) (remove_old_generations self name)
  unfolding remove_old_generations
  remove_old_generations-Keeps self name =
      Keeps-bind _ _ (Keeps-outcome _ (Keeps-call _ _ stable (λ a w h. h))) λ r.
        Keeps-elim_Result r _ _
          (λ _. Keeps-bind _ _ (Keeps-gets _) (λ names. remove_dirs-Keeps _ name names))
          (λ e. Keeps-pure tt)

  pub reload_bird-Keeps : (self : PeerManager) → Keeps (λ w. P w.db) (reload_bird self)
  unfolding reload_bird
  reload_bird-Keeps self = search (keeps_rules, Keeps-call, stable) depth 9

  create_dir-Keeps : (name path : Text) → Keeps (λ w. P w.db) (create_dir name path)
  unfolding create_dir
  create_dir-Keeps name path = Keeps-bind _ _ (Keeps-gets _) λ present.
      Keeps-elim_Option present _ _ (Keeps-call _ _ stable (λ a w h. h)) (λ files. Keeps-raise _)

  module _ (self : PeerManager) where
    restore-Keeps : (target : Option Text) → Keeps (λ w. P w.db) (restore self target)
    unfolding restore switch_current
    restore-Keeps none = remove_optional-Keeps _
    restore-Keeps (some target) = switch-Keeps _ target

    roll_back-Keeps :
        (target : Option Text) (e : PeerError) → Keeps (λ w. P w.db) (roll_back self target e)
    unfolding roll_back
    roll_back-Keeps target e = Keeps-bind _ _ (Keeps-outcome _ (restore-Keeps target)) λ restored.
        Keeps-elim_Result restored _ _
          (λ _. Keeps-bind _ _ (Keeps-outcome _ (reload_bird-Keeps self)) (λ _. Keeps-raise e))
          (λ _. Keeps-raise _)

    install-Keeps : (desired : Files) → Keeps (λ w. P w.db) (install self desired)
    unfolding install switch_current
    install-Keeps desired = Keeps-bind _ _ unique_suffix-Keeps λ suffix.
        Keeps-bind _ _ (create_dir-Keeps _ _) λ _.
          Keeps-bind _ _ (Keeps-for_each _ desired (λ file. write_atomic-Keeps _ _ _ _)) λ _.
            Keeps-bind _ _ (sync_directory-Keeps _) λ _.
              Keeps-bind _ _ (Keeps-outcome _ (Keeps-ask _ _ stable)) λ read.
                Keeps-bind _ _ (switch-Keeps _ _) λ _.
                  Keeps-bind _ _ (Keeps-outcome _ (reload_bird-Keeps self)) λ reloaded.
                    Keeps-elim_Result reloaded _ _ (λ _. remove_old_generations-Keeps self _)
                      (λ e. roll_back-Keeps _ e)

    pub sync_bird_configs_for-Keeps :
        (peers : List Peer) (force : Bool)
        → Keeps (λ w. P w.db) (sync_bird_configs_for self peers force)
    unfolding sync_bird_configs_for
    sync_bird_configs_for-Keeps peers force = Keeps-bind _ _ (ensure_bird_layout-Keeps self) λ _.
        Keeps-bind _ _ (Keeps-lift _) λ desired.
          Keeps-bind _ _ (matches-Keeps self desired) λ matches.
            Keeps-if matches _ _
              (λ _. Keeps-if force _ _ (λ _. reload_bird-Keeps self) (λ _. Keeps-pure tt))
              (λ _. install-Keeps desired)
