-- ===== src/Manager/Bird/Clean.antt =====
-- src/manager.rs: the removal of old generations leaves the one that `current` leads to.
use dn42_autopeer.Base.{
  ◌≡◌, ap, ◌∙◌, inl, inr, List, [], ◌∷◌, keep, not, true, false, some, arith, ◌==◌, nat_eq, text_eq,
  beq_comm, Bool-cases,
}
use dn42_autopeer.Base.Text.{Text}
use dn42_autopeer.World.Types.{World}
use dn42_autopeer.World.Keeps.{
  Keeps, IsStable, Keeps-bind, Keeps-outcome, Keeps-call, Keeps-if, Keeps-pure, Keeps-gets,
  Keeps-elim_Result,
}
use dn42_autopeer.Manager.State.{PeerManager}
use dn42_autopeer.Manager.Bird.Files.{
  Files, target_of, resolve, current_files, is_old, remove_dirs, remove_old_generations,
}
use dn42_autopeer.Manager.Bird.Directory.{target_of_inj}

module _ (name : Text) (desired : Files) where
  -- The link leads to the new generation.
  pub record Installed (w : World) : Type 0 where
    pub link : w.bird.current ≡ some (target_of name)
    pub files : resolve (target_of name) w.bird.generations ≡ some desired

  Installed-IsStable : IsStable Installed
  Installed-IsStable = record { advances = λ w h. record { link = h.link; files = h.files } }

  pub Installed-shows : (w : World) → Installed w → current_files w.bird ≡ some desired
  unfolding current_files
  Installed-shows w h = rw (h.link) h.files

  -- A directory of another name does not count.
  resolve-keep :
      (other : Text) (dirs : List (Text × Files))
      → (name == other) ≡ false
      → resolve (target_of name) dirs ≡ some desired
      → resolve (target_of name) (keep (λ (d : Text × Files). not (d.0 == other)) dirs)
        ≡ some desired
  unfolding resolve
  resolve-keep other [] h e = e
  resolve-keep other ((n, files) ∷ dirs) h e = elim (Bool-cases (target_of n == target_of name)) [
    | inl q ↦
        let same : n ≡ name =
          target_of_inj n name ((text_eq.beq_iff (target_of n) (target_of name)).0 q) in
        let stays : (n == other) ≡ false = ap (λ m. m == other) same ∙ h in
        ground (arith, q, e, stays)
    | inr q ↦
        let later = resolve-keep other dirs h (ground (arith, q, e)) in ground (arith, q, later)
  ]

  is_old-other : (other : Text) → is_old name other ≡ true → (name == other) ≡ false
  unfolding is_old
  is_old-other other h = ground (arith, h, beq_comm name other)

  remove_dirs-Keeps :
      (path : Text) (names : List Text) → Keeps Installed (remove_dirs path name names)
  unfolding remove_dirs
  remove_dirs-Keeps path [] = Keeps-pure tt
  remove_dirs-Keeps path (other ∷ names) =
      let later = remove_dirs-Keeps path names in
      Keeps-bind _ _ (Keeps-outcome _ (Keeps-call _ _ Installed-IsStable (λ a w h. h))) λ entry.
        Keeps-elim_Result entry _ _
          (λ _.
            Keeps-if (is_old name other) _ _
              (λ old.
                Keeps-bind _ _
                  (Keeps-outcome _ (
                    Keeps-call _ _ Installed-IsStable λ a w h. record {
                      link = h.link;
                      files =
                          resolve-keep other w.bird.generations (is_old-other other old) h.files;
                    }))
                  (λ _. later))
              (λ _. later))
          (λ _. Keeps-pure tt)

  pub remove_old_generations-Keeps :
      (self : PeerManager) → Keeps Installed (remove_old_generations self name)
  unfolding remove_old_generations
  remove_old_generations-Keeps self =
      Keeps-bind _ _ (Keeps-outcome _ (Keeps-call _ _ Installed-IsStable (λ a w h. h))) λ entries.
        Keeps-elim_Result entries _ _
          (λ _. Keeps-bind _ _ (Keeps-gets _) (λ names. remove_dirs-Keeps _ names))
          (λ _. Keeps-pure tt)
