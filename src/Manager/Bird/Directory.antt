-- ===== src/Manager/Bird/Directory.antt =====
-- src/manager.rs: files and directories as lists, and what a reader of `current` finds.
use dn42_autopeer.Base.{
  ◌≡◌, refl, sym, ◌∙◌, List, [], ◌∷◌, ◌++◌, any, false, none, some, arith, ◌==◌, nat_eq, text_eq,
  Bool-cases, inl, inr, beq_refl,
}
use dn42_autopeer.Base.Text.{Text, text}
use dn42_autopeer.Manager.Bird.Files.{
  Files, put_file, drop_file, change_dir, dir_files, target_of, resolve,
}

-- No file, or no directory, has the name.
abbrev pub NoFile : Text → Files → Type 0
NoFile name files = any (λ (f : Text × Text). f.0 == name) files ≡ false

abbrev pub NoDir : Text → List (Text × Files) → Type 0
NoDir name dirs = any (λ (d : Text × Files). d.0 == name) dirs ≡ false

module _ (name : Text) where
  pub put_file-new :
      (content : Text) (files : Files)
      → NoFile name files
      → put_file name content files ≡ files ++ (name, content) ∷ []
  unfolding put_file
  put_file-new content [] h = refl
  put_file-new content ((n, c) ∷ files) h = ground (arith, h, put_file-new content files)

  pub put_file-again :
      (old content : Text) (files : Files)
      → NoFile name files
      → put_file name content (files ++ (name, old) ∷ []) ≡ files ++ (name, content) ∷ []
  unfolding put_file
  put_file-again old content [] h = ground (arith, beq_refl name)
  put_file-again old content ((n, c) ∷ files) h =
      ground (arith, h, put_file-again old content files)

  pub drop_file-last :
      (old : Text) (files : Files)
      → NoFile name files
      → drop_file name (files ++ (name, old) ∷ []) ≡ files
  unfolding drop_file
  drop_file-last old [] h = ground (arith, beq_refl name)
  drop_file-last old ((n, c) ∷ files) h = ground (arith, h, drop_file-last old files)

  change_dir-none :
      (f : Files → Files) (dirs : List (Text × Files))
      → NoDir name dirs
      → change_dir name f dirs ≡ dirs
  unfolding change_dir
  change_dir-none f [] h = refl
  change_dir-none f ((n, files) ∷ dirs) h = ground (arith, h, change_dir-none f dirs)

  -- A change of the first directory changes no other.
  pub change_dir-first :
      (f : Files → Files) (files : Files) (dirs : List (Text × Files))
      → NoDir name dirs
      → change_dir name f ((name, files) ∷ dirs) ≡ (name, f files) ∷ dirs
  unfolding change_dir
  change_dir-first f files dirs h = ground (arith, beq_refl name, change_dir-none f dirs h)

  pub dir_files-NoDir : (dirs : List (Text × Files)) → dir_files name dirs ≡ none → NoDir name dirs
  unfolding dir_files
  dir_files-NoDir [] h = refl
  dir_files-NoDir ((n, files) ∷ dirs) h = elim (Bool-cases (n == name)) [
    | inl e ↦ ground (arith, e, h)
    | inr e ↦ ground (arith, e, dir_files-NoDir dirs (ground (arith, e, h)))
  ]

prefix_inj : (a b c : Text) → (a ++ b) ≡ (a ++ c) → b ≡ c
prefix_inj [] b c e = e
prefix_inj (x ∷ a) b c e = prefix_inj a b c (ground (arith, e))

pub target_of_inj : (m n : Text) → target_of m ≡ target_of n → m ≡ n
target_of_inj m n e = prefix_inj (text "generations/") m n e

-- A target that leads somewhere leads to one of the directories.
pub resolve-not :
    (name target : Text) (dirs : List (Text × Files)) (files : Files)
    → NoDir name dirs
    → resolve target dirs ≡ some files
    → (target_of name == target) ≡ false
unfolding resolve
resolve-not name target [] files h e = ground (arith, e)
resolve-not name target ((n, fs) ∷ dirs) files h e = elim (Bool-cases (target_of n == target)) [
  | inl q ↦ elim (Bool-cases (target_of name == target)) [
    | inl p ↦
        let same : n ≡ name = target_of_inj n name (
          (text_eq.beq_iff (target_of n) target).0 q
          ∙ sym ((text_eq.beq_iff (target_of name) target).0 p)) in
        ground (arith, h, (text_eq.beq_iff n name).1 same)
    | inr p ↦ p
  ]
  | inr q ↦ resolve-not name target dirs files (ground (arith, h)) (ground (arith, q, e))
]
