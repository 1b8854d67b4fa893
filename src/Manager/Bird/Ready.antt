-- ===== src/Manager/Bird/Ready.antt =====
-- src/manager.rs: the layout and the comparison leave what `current` leads to.
use dn42_autopeer.Base.{
  ◌⊎◌, inl, inr, ◌≡◌, refl, ap, sym, ◌∙◌, List, [], ◌∷◌, Bool, true, false, Option, none, some,
  arith, nat_eq, text_eq, if◌then◌else◌,
}
use dn42_autopeer.Base.Text.{Text, text, ends_with}
use dn42_autopeer.Error.{PeerError}
use dn42_autopeer.Result.{Result, ok, err}
use dn42_autopeer.World.Types.{World, Failure}
use dn42_autopeer.World.Action.{call, ask, respond, advance, pure, ◌>>=◌}
use dn42_autopeer.World.Keeps.{Keeps, IsStable, Keeps-call, keeps_rules}
use dn42_autopeer.World.Triple.{
  Ends, Triple, Triple-bind, Triple-pure, Triple-after, Triple-fact, Triple-if, Triple-raise,
  Triple-outcome,
}
use dn42_autopeer.Manager.State.{PeerManager, io_error}
use dn42_autopeer.Manager.Bird.Files.{
  Files, insert_file, files_beq, dir_files, resolve, current_files, current_path,
  ensure_bird_layout, has_current, read_entries, or_absent, current_generation_matches,
}
use dn42_autopeer.Manager.Bird.Reload.{reload_bird}
use dn42_autopeer.Manager.Bird.Directory.{dir_files-NoDir, resolve-not}
use dn42_autopeer.Manager.Bird.Switch.{kept}

-- The files of a directory that are part of the configuration, in the order of their names.
pub conf_files : Files → Files → Files
conf_files [] found = found
conf_files ((name, content) ∷ files) found =
    conf_files files
      (if ends_with name (text ".conf") then insert_file name content found else found)

files_beq→eq : (xs ys : Files) → files_beq xs ys ≡ true → xs ≡ ys
unfolding files_beq
files_beq→eq [] [] h = refl
files_beq→eq [] (y ∷ ys) h = ground (arith, h)
files_beq→eq (x ∷ xs) [] h = ground (arith, h)
files_beq→eq ((n, c) ∷ xs) ((m, d) ∷ ys) h =
    ground (arith, h, text_eq.beq_iff n m, text_eq.beq_iff c d, files_beq→eq xs ys)

-- The link leads to a generation with these files.
module _ (t : Text) (old : Files) where
  pub record Ready (w : World) : Type 0 where
    pub link : w.bird.current ≡ some t
    pub files : resolve t w.bird.generations ≡ some old

  Ready-IsStable : IsStable Ready
  Ready-IsStable = record { advances = λ w h. record { link = h.link; files = h.files } }

  pub Ready-shows : (w : World) → Ready w → current_files w.bird ≡ some old
  unfolding current_files
  Ready-shows w h = rw (h.link) h.files

  -- A link that is read leads where it led.
  look-current :
      (self : PeerManager)
      → Triple Ready
          (ask (λ a w. ok (has_current self w.bird.current)) (io_error (current_path self)))
          (λ present w. (present ≡ true) × Ready w)
          (λ _. Ready)
  unfolding ask has_current
  look-current self = record { at = λ w h. go w (w.answers 0).fault (Ready-IsStable.advances w h) }
    where
      go :
          (w : World) (f : Option Failure)
          → Ready (advance w)
          → Ends
              (λ present w. (present ≡ true) × Ready w)
              (λ _. Ready)
              (respond f
                (ok (has_current self w.bird.current))
                (io_error (current_path self))
                (advance w)).0
              (respond f
                (ok (has_current self w.bird.current))
                (io_error (current_path self))
                (advance w)).1
      go w none h = (ap (has_current self) h.link, h)
      go w (some f) h = h

  with_empty : (dirs : List (Text × Files)) → List (Text × Files)
  with_empty dirs = elim (dir_files (text "empty") dirs) [
    | some _ ↦ dirs
    | none ↦ (text "empty", []) ∷ dirs
  ]

  with_empty-resolve :
      (dirs : List (Text × Files))
      → resolve t dirs ≡ some old
      → resolve t (with_empty dirs) ≡ some old
  unfolding with_empty resolve
  with_empty-resolve dirs h = go (dir_files (text "empty") dirs) refl
    where
      go :
          (o : Option Files)
          → dir_files (text "empty") dirs ≡ o
          → resolve t (elim o [ some _ ↦ dirs | none ↦ (text "empty", []) ∷ dirs ]) ≡ some old
      go (some files) e = h
      go none e =
          let fresh = dir_files-NoDir (text "empty") dirs e in
          ground (arith, resolve-not (text "empty") t dirs old fresh h, h)

  pub ensure_bird_layout-Ready :
      (self : PeerManager) → Triple Ready (ensure_bird_layout self) (λ _. Ready) (λ _. Ready)
  unfolding ensure_bird_layout with_empty
  ensure_bird_layout-Ready self =
      Triple-bind _ _
        (kept _
          (Keeps-call _ _ Ready-IsStable λ a w h. record {
            link = h.link;
            files = with_empty-resolve w.bird.generations h.files;
          })
          (λ _ w h. h) (λ _ w h. h))
        λ _. Triple-bind _ _ (look-current self) λ present. Triple-fact _ λ there.
          Triple-if present _ _ (λ _. Triple-pure tt (λ w h. h))
            (λ no. absurd (ground (arith, there, no)))

  idle :
      (wrap : Failure → PeerError) → Triple Ready (call (λ a w. w) wrap) (λ _. Ready) (λ _. Ready)
  idle wrap = kept _ (Keeps-call _ _ Ready-IsStable (λ a w h. h)) (λ _ w h. h) (λ _ w h. h)

  -- The comparison reads the files, and says whether they are the desired ones.
  read_entries-Ready :
      (path : Text) (entries actual : Files)
      → Triple Ready
          (read_entries path entries actual)
          (λ found w. (found ≡ conf_files entries actual) × Ready w)
          (λ _. Ready)
  unfolding read_entries conf_files
  read_entries-Ready path [] actual =
      Triple-bind _ _
        (kept _ (Keeps-call _ _ Ready-IsStable (λ a w h. h)) (λ _ w h. h) (λ _ w h. h))
        (λ _. Triple-pure actual (λ w h. (refl, h)))
  read_entries-Ready path ((name, content) ∷ entries) actual =
      let next : Bool → Files =
        λ test. conf_files entries (if test then insert_file name content actual else actual) in
      Triple-bind _ _ (idle _) λ _.
        Triple-if (ends_with name (text ".conf")) _ _
          (λ e. Triple-bind _ _ (idle _) λ _.
            Triple-after _ _ (λ found w k. (k.0 ∙ ap next (sym e), k.1))
              (read_entries-Ready path entries (insert_file name content actual)))
          (λ e.
            Triple-after _ _ (λ found w k. (k.0 ∙ ap next (sym e), k.1))
              (read_entries-Ready path entries actual))

  pub reload_bird-Ready : (self : PeerManager) → Keeps Ready (reload_bird self)
  unfolding reload_bird
  reload_bird-Ready self = search (keeps_rules, Keeps-call, Ready-IsStable) depth 9

  -- A look at the files finds those of the link, or says that there are none.
  IsSeen : Option Files → World → Type 0
  IsSeen entries w = ((entries ≡ some old) ⊎ (entries ≡ none)) × Ready w

  absent-Ready :
      (r : Result (Option Files))
      → Triple
          (λ w. Ends (λ entries w. (entries ≡ some old) × Ready w) (λ _. Ready) r w)
          (or_absent r)
          IsSeen
          (λ _. Ready)
  unfolding or_absent IsSeen
  absent-Ready (ok entries) = Triple-pure entries (λ w h. (inl h.0, h.1))
  absent-Ready (err (PeerError.bird_config_io source p)) =
      Triple-if source.is_not_found _ _ (λ _. Triple-pure none (λ w h. (inr refl, h)))
        (λ _. Triple-raise _ (λ w h. h))
  absent-Ready (err e) = Triple-raise e (λ w h. h)

  look-files :
      (self : PeerManager)
      → Triple Ready
          (ask (λ a w. ok (current_files w.bird)) (io_error (current_path self)))
          (λ entries w. (entries ≡ some old) × Ready w)
          (λ _. Ready)
  unfolding ask
  look-files self = record { at = λ w h. go w (w.answers 0).fault (Ready-IsStable.advances w h) }
    where
      go :
          (w : World) (f : Option Failure)
          → Ready (advance w)
          → Ends
              (λ entries w. (entries ≡ some old) × Ready w)
              (λ _. Ready)
              (respond f (ok (current_files w.bird)) (io_error (current_path self)) (advance w)).0
              (respond f (ok (current_files w.bird)) (io_error (current_path self)) (advance w)).1
      go w none h = (Ready-shows (advance w) h, h)
      go w (some f) h = h

  pub matches-Ready :
      (self : PeerManager) (desired : Files)
      → Triple Ready
          (current_generation_matches self desired)
          (λ matches w. ((matches ≡ true) → conf_files old [] ≡ desired) × Ready w)
          (λ _. Ready)
  unfolding current_generation_matches IsSeen
  matches-Ready self desired =
      Triple-bind _ _ (Triple-outcome _ (look-files self))
        λ read. Triple-bind _ _ (absent-Ready read) (λ entries. Triple-fact _ (on entries))
    where
      on :
          (entries : Option Files)
          → (entries ≡ some old) ⊎ (entries ≡ none)
          → Triple Ready
              (elim entries [
                | none ↦ pure false
                | some files ↦ do
                  actual ← read_entries (current_path self) files []
                  pure (files_beq actual desired)
              ])
              (λ matches w. ((matches ≡ true) → conf_files old [] ≡ desired) × Ready w)
              (λ _. Ready)
      on none e = Triple-pure false (λ w h. (λ yes. absurd (ground (arith, yes)), h))
      on (some files) (inr e) = absurd (ground (arith, e))
      on (some files) (inl e) =
          let same : files ≡ old = ground (arith, e) in
          Triple-bind _ _ (read_entries-Ready (current_path self) files []) λ actual.
            Triple-pure _ (λ w k. (
              λ yes.
                  ap (λ fs. conf_files fs []) (sym same)
                  ∙ (sym k.0 ∙ files_beq→eq actual desired yes),
              k.1,
            ))
