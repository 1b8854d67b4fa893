-- ===== src/Manager/Bird/Write.antt =====
-- src/manager.rs: a generation is written file by file, out of sight of a reader of `current`.
use dn42_autopeer.Base.{
  ◌≡◌, refl, ap, sym, subst, ◌∙◌, List, [], ◌∷◌, ◌++◌, append_assoc, append-nil, Bool, true, false,
  Option, none, some, arith, ◌==◌, nat_eq, text_eq, list_beq, if◌then◌else◌,
}
use dn42_autopeer.Base.Text.{Text, text}
use dn42_autopeer.Error.{PeerError}
use dn42_autopeer.World.Types.{World, Answer, BirdDir, Failure}
use dn42_autopeer.World.Action.{call, settle, advance, answer, for_each}
use dn42_autopeer.World.Triple.{Ends, Triple, Triple-bind, Triple-pure, Triple-after}
use dn42_autopeer.Manager.Bird.Files.{Files, put_file, change_dir, on_dir, write_atomic}
use dn42_autopeer.Manager.Bird.Directory.{
  NoFile, NoDir, put_file-new, put_file-again, drop_file-last, change_dir-first,
}

-- The directory of BIRD is this one.
abbrev pub At : BirdDir → World → Type 0
At bird w = w.bird ≡ bird

-- A property of the directory, whatever the error.
abbrev pub Left : (BirdDir → Type 0) → PeerError → World → Type 0
Left F e w = F w.bird

module _ (F : BirdDir → Type 0) (b b' : BirdDir) (fb : F b) (fb' : F b') where
  settled-At :
      (f : Option Failure) (effect : World → World) (wrap : Failure → PeerError) (w : World)
      → At b w
      → At b' (effect w)
      → Ends (λ _. At b') (Left F) (settle f effect wrap w).0 (settle f effect wrap w).1
  unfolding settle
  settled-At none effect wrap w h k = k
  settled-At (some f) effect wrap w h k = either f.applied
    where
      either : (c : Bool) → F (if c then effect w else w).bird
      either true = subst F (sym k) fb'
      either false = subst F (sym h) fb

  -- A call with an effect on the directory.
  pub bird-call :
      (effect : Answer → World → World) (wrap : Failure → PeerError)
      → ((a : Answer) (w : World) → At b w → At b' (effect a w))
      → Triple (At b) (call effect wrap) (λ _. At b') (Left F)
  unfolding call
  bird-call effect wrap k = record {
    at = λ w h. settled-At (w.answers 0).fault (effect (w.answers 0)) wrap (advance w) h (k _ _ h);
  }

pub bird-answer : (b : BirdDir) (F : BirdDir → Type 0) → Triple (At b) answer (λ _. At b) (Left F)
unfolding answer
bird-answer b F = record { at = λ w h. h }

-- The name does not begin with a dot, as that of a temporary file does.
abbrev pub IsShown : Text → Type 0
IsShown [] = Unit
IsShown (c ∷ rest) = (c == b'.') ≡ false

abbrev pub AreShown : Files → Type 0
AreShown [] = Unit
AreShown (f ∷ files) = IsShown f.0 × AreShown files

shown-NoFile : (rest : Text) (files : Files) → AreShown files → NoFile (b'.' ∷ rest) files
unfolding list_beq
shown-NoFile rest [] h = refl
shown-NoFile rest (([], c) ∷ files) h = ground (arith, shown-NoFile rest files h.1)
shown-NoFile rest ((x ∷ n, c) ∷ files) h = ground (arith, h.0, shown-NoFile rest files h.1)

AreShown-front : (xs ys : Files) → AreShown (xs ++ ys) → AreShown xs
AreShown-front [] ys h = tt
AreShown-front (x ∷ xs) ys h = (h.0, AreShown-front xs ys h.1)

-- No file has the name of one before it.
abbrev pub AreDistinct : Files → Files → Type 0
AreDistinct written [] = Unit
AreDistinct written (f ∷ todo) = NoFile f.0 written × AreDistinct (written ++ f ∷ []) todo

-- A generation that is being written in front of the others.
module _ (name : Text) (gens : List (Text × Files)) (cur : Option Text) (fresh : NoDir name gens)
    (F : BirdDir → Type 0) where
  abbrev pub stage : Files → BirdDir
  stage files = record { generations = (name, files) ∷ gens; current = cur }

  on_stage :
      (f : Files → Files) (files files' : Files) (w : World)
      → f files ≡ files'
      → At (stage files) w
      → At (stage files') (on_dir name f w)
  on_stage f files files' w e h =
      ap
        (λ (b : BirdDir). record {
          generations = change_dir name f b.generations;
          current = b.current;
        })
        h
      ∙ ap (λ g. record { generations = g; current = cur })
          (change_dir-first name f files gens fresh ∙ ap (λ (x : Files). (name, x) ∷ gens) e)

  module _ (hidden : (files : Files) → F (stage files)) where
    idle :
        (files : Files) (wrap : Failure → PeerError)
        → Triple (At (stage files)) (call (λ a w. w) wrap) (λ _. At (stage files)) (Left F)
    idle files wrap =
        bird-call F (stage files) (stage files) (hidden files) (hidden files) _ _ (λ a w h. h)

    change :
        (f : Files → Files) (files files' : Files) (wrap : Failure → PeerError)
        → f files ≡ files'
        → Triple
            (At (stage files))
            (call (λ a w. on_dir name f w) wrap)
            (λ _. At (stage files'))
            (Left F)
    change f files files' wrap e =
        bird-call F (stage files) (stage files') (hidden files) (hidden files') _ _
          (λ a w h. on_stage f files files' w e h)

    -- A file that is written appears behind the others.
    pub write_atomic-At :
        (path file content : Text) (files : Files)
        → AreShown files
        → NoFile file files
        → Triple
            (At (stage files))
            (write_atomic path name file content)
            (λ _. At (stage (files ++ (file, content) ∷ [])))
            (Left F)
    unfolding write_atomic text
    write_atomic-At path file content files shown none_yet = Triple-bind _ _ (bird-answer _ F) λ a.
        let dotted : (rest : Text) → NoFile (b'.' ∷ rest) files =
          λ rest. shown-NoFile rest files shown in
        Triple-bind _ _ (idle files _) λ _.
          Triple-bind _ _ (change _ files _ _ (put_file-new _ [] files (dotted _))) λ _.
            Triple-bind _ _ (change _ _ _ _ (put_file-again _ [] content files (dotted _))) λ _.
              Triple-bind _ _ (idle _ _) λ _. Triple-bind _ _ (idle _ _) λ _.
                Triple-bind _ _ (idle _ _) λ _. change _ _ _ _ (
                  ap (put_file file content) (drop_file-last _ content files (dotted _))
                  ∙ put_file-new file content files none_yet)

    -- The loop over the files writes all of them, in their order.
    pub write_all-At :
        (path : Text) (written todo : Files)
        → AreShown (written ++ todo)
        → AreDistinct written todo
        → Triple
            (At (stage written))
            (for_each (λ (file : Text × Text). write_atomic path name file.0 file.1) todo)
            (λ _. At (stage (written ++ todo)))
            (Left F)
    unfolding for_each
    write_all-At path written [] shown distinct =
        Triple-pure tt (λ w h. h ∙ ap stage (sym (append-nil written)))
    write_all-At path written ((file, content) ∷ todo) shown distinct =
        Triple-bind _ _
          (write_atomic-At path file content written (AreShown-front written _ shown) distinct.0)
          λ _.
            Triple-after _ _ (λ _ w h. h ∙ ap stage (append_assoc written _ todo))
              (write_all-At path (written ++ (file, content) ∷ []) todo
                (subst AreShown (sym (append_assoc written _ todo)) shown) distinct.1)
