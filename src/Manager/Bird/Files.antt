-- ===== src/Manager/Bird/Files.antt =====
-- src/manager.rs: files, directories and the link `current`.
use dn42_autopeer.Base.{
  List, [], ◌∷◌, ◌++◌, map, keep, if◌then◌else◌, ◌==◌, text_eq, Bool, true, false, not, ◌||◌, ◌&&◌,
  Option, none, some,
}
use dn42_autopeer.Base.Text.{Text, text, ends_with, starts_with}
use dn42_autopeer.Base.Decimal.{decimal}
use dn42_autopeer.Error.{PeerError}
use dn42_autopeer.Result.{Result, ok, err}
use dn42_autopeer.World.Types.{World, BirdDir}
use dn42_autopeer.World.Action.{Action, pure, raise, answer, call, ask, outcome, gets, ◌>>=◌, ◌>>◌}
use dn42_autopeer.Persist.{text_lt}
use dn42_autopeer.Manager.State.{PeerManager, io_error, child}

abbrev pub Files : Type 0
Files = List (Text × Text)

-- A `BTreeMap` as its entries in the order of the keys.
unfoldable pub insert_file : Text → Text → Files → Files
insert_file name content [] = (name, content) ∷ []
insert_file name content ((n, c) ∷ files) =
    let rest = insert_file name content files in
    if name == n
    then (name, content) ∷ files
    else if text_lt name n
    then (name, content) ∷ (n, c) ∷ files
    else (n, c) ∷ rest

unfoldable pub files_beq : Files → Files → Bool
files_beq [] [] = true
files_beq ((n, c) ∷ xs) ((m, d) ∷ ys) = n == m && (c == d && files_beq xs ys)
files_beq _ _ = false

-- A directory as the list of its entries: write a file, drop a file.
unfoldable pub put_file : Text → Text → Files → Files
put_file name content [] = (name, content) ∷ []
put_file name content ((n, c) ∷ files) =
    let rest = put_file name content files in
    if n == name then (name, content) ∷ files else (n, c) ∷ rest

unfoldable pub drop_file : Text → Files → Files
drop_file name files = keep (λ (f : Text × Text). not (f.0 == name)) files

unfoldable pub change_dir : Text → (Files → Files) → List (Text × Files) → List (Text × Files)
change_dir name f [] = []
change_dir name f ((n, files) ∷ dirs) =
    let rest = change_dir name f dirs in
    if n == name then (n, f files) ∷ rest else (n, files) ∷ rest

abbrev pub on_dir : Text → (Files → Files) → World → World
on_dir name f w = record w {
  bird = record w.bird { generations = change_dir name f w.bird.generations };
}

unfoldable pub dir_files : Text → List (Text × Files) → Option Files
dir_files name [] = none
dir_files name ((n, files) ∷ dirs) =
    let rest = dir_files name dirs in if n == name then some files else rest

-- The target of `current` for a generation.
abbrev pub target_of : Text → Text
target_of name = text "generations/" ++ name

unfoldable pub resolve : Text → List (Text × Files) → Option Files
resolve target [] = none
resolve target ((n, files) ∷ dirs) =
    let rest = resolve target dirs in if target_of n == target then some files else rest

-- What a reader of `current` finds.
unfoldable pub current_files : BirdDir → Option Files
unfolding resolve
current_files bird = elim bird.current [
  | none ↦ none
  | some target ↦ resolve target bird.generations
]

module _ (self : PeerManager) where
  abbrev pub generations_path : Text
  generations_path = child self.bird_conf_dir (text "generations")

  abbrev pub current_path : Text
  current_path = child self.bird_conf_dir (text "current")

-- `unique_suffix`
unfoldable pub unique_suffix : Action Text
unique_suffix = do a ← answer; pure (decimal a.nanos)

-- `sync_directory`: open and `sync_all`.
unfoldable pub sync_directory : Text → Action Unit
sync_directory path = do call (λ a w. w) (io_error path); call (λ a w. w) (io_error path)

-- The link is renamed, or the temporary link is removed and the error returned.
unfoldable pub rename_current : Text → Text → Text → Action Unit
rename_current root temporary target = do
  renamed ← outcome (
      call (λ a w. record w { bird = record w.bird { current = some target } })
        (io_error (child root (text "current"))))
  elim renamed [
    | ok _ ↦ pure tt
    | err e ↦ do outcome (call (λ a w. w) (io_error temporary)); raise e
  ]

unfoldable pub atomic_switch_current : Text → Text → Action Unit
unfolding rename_current
atomic_switch_current root target = do
  suffix ← unique_suffix
  let temporary = child root (text ".current." ++ (suffix ++ text ".tmp"))
  call (λ a w. w) (io_error temporary)
  rename_current root temporary target
  sync_directory root

module _ (self : PeerManager) where
  unfoldable pub switch_current : Text → Action Unit
  switch_current target = atomic_switch_current self.bird_conf_dir target

  unfoldable pub has_current : Option Text → Bool
  has_current none = false
  has_current (some t) = true

  -- `create_dir_all` of the generation "empty", and the first link. That the link is not found is
  -- what the world shows; a failure of the look is one of another kind.
  unfoldable pub ensure_bird_layout : Action Unit
  unfolding has_current
  ensure_bird_layout = do
    call
        (λ a w. record w {
          bird = record w.bird {
            generations = elim (dir_files (text "empty") w.bird.generations) [
              | some _ ↦ w.bird.generations
              | none ↦ (text "empty", []) ∷ w.bird.generations
            ];
          };
        })
        (io_error (child (generations_path self) (text "empty")))
    present ← ask (λ a w. ok (has_current w.bird.current)) (io_error (current_path self))
    if present then pure tt else switch_current (text "generations/empty")

-- The loop of `generation_matches` over the entries: one call for the entry, one to read it.
unfoldable pub read_entries : Text → Files → Files → Action Files
read_entries path [] actual = do call (λ a w. w) (io_error path); pure actual
read_entries path ((name, content) ∷ entries) actual = do
  call (λ a w. w) (io_error path)
  if ends_with name (text ".conf")
      then (do
        call (λ a w. w) (io_error (child path name))
        read_entries path entries (insert_file name content actual))
      else read_entries path entries actual

-- A directory that is not found has no files.
unfoldable pub or_absent : Result (Option Files) → Action (Option Files)
or_absent (ok entries) = pure entries
or_absent (err (PeerError.bird_config_io source p)) =
    if source.is_not_found then pure none else raise (PeerError.bird_config_io source p)
or_absent (err e) = raise e

-- `generation_matches` at `current`.
unfoldable pub current_generation_matches : PeerManager → Files → Action Bool
unfolding or_absent
current_generation_matches self desired = do
  read ← outcome (ask (λ a w. ok (current_files w.bird)) (io_error (current_path self)))
  entries ← or_absent read
  elim entries [
    | none ↦ pure false
    | some files ↦ do
      actual ← read_entries (current_path self) files []
      pure (files_beq actual desired)
  ]

-- A missing link is no error.
unfoldable pub or_missing : Result (Unit {0}) → Action Unit
or_missing (ok _) = pure tt
or_missing (err (PeerError.bird_config_io source p)) =
    if source.is_not_found then pure tt else raise (PeerError.bird_config_io source p)
or_missing (err e) = raise e

-- `remove_file` of `current`.
unfoldable pub remove_optional : Text → Action Unit
unfolding or_missing
remove_optional path = do
  removed ←
      outcome (call (λ a w. record w { bird = record w.bird { current = none } }) (io_error path))
  or_missing removed

-- `write_atomic`: the text goes to a temporary file, which is then renamed.
unfoldable pub write_atomic : Text → Text → Text → Text → Action Unit
write_atomic dir_path dir file_name content = do
  a ← answer
  let temporary_name =
      text "."
      ++ (file_name
          ++ (text "." ++ (decimal a.process_id ++ (text "." ++ (decimal a.nanos ++ text ".tmp")))))
  let temporary_path = child dir_path temporary_name
  call (λ a w. w) (io_error dir_path)
  call (λ a w. on_dir dir (put_file temporary_name []) w) (io_error temporary_path)
  call (λ a w. on_dir dir (put_file temporary_name content) w) (io_error temporary_path)
  call (λ a w. w) (io_error temporary_path)
  call (λ a w. w) (io_error temporary_path)
  call (λ a w. w) (io_error temporary_path)
  call (λ a w. on_dir dir (λ files. put_file file_name content (drop_file temporary_name files)) w)
      (io_error (child dir_path file_name))

-- The generations that `remove_old_generations` deletes.
unfoldable pub is_old : Text → Text → Bool
is_old current_name name =
    not (
      name == text "empty" || (name == current_name || not (starts_with name (text "generation-"))))

unfoldable pub remove_dirs : Text → Text → List Text → Action Unit
remove_dirs path current_name [] = pure tt
remove_dirs path current_name (name ∷ names) = do
  entry ← outcome (call (λ a w. w) (io_error path))
  elim entry [
    | err e ↦ pure tt
    | ok _ ↦
        if is_old current_name name
        then (do
          outcome (
              call
                (λ a w. record w {
                  bird = record w.bird {
                    generations = keep (λ (d : Text × Files). not (d.0 == name)) w.bird.generations;
                  };
                })
                (io_error (child path name)))
          remove_dirs path current_name names)
        else remove_dirs path current_name names
  ]

unfoldable pub remove_old_generations : PeerManager → Text → Action Unit
unfolding is_old remove_dirs
remove_old_generations self current_name = do
  entries ← outcome (call (λ a w. w) (io_error (generations_path self)))
  elim entries [
    | err e ↦ pure tt
    | ok _ ↦ do
      names ← gets (λ w. map (λ (d : Text × Files). d.0) w.bird.generations)
      remove_dirs (generations_path self) current_name names
  ]
