-- ===== src/Manager/Bird/Shows.antt =====
-- src/manager.rs: what a reader of `current` finds after a sync of the configuration.
use dn42_autopeer.Base.{
  ◌≡◌, ap, ◌⊎◌, inl, inr, List, [], keep, Bool, Option, none, some, nat_eq, text_eq,
}
use dn42_autopeer.Base.Text.{Text}
use dn42_autopeer.Error.{PeerError}
use dn42_autopeer.Result.{Result, ok, err}
use dn42_autopeer.Peer.{Peer, is_desired}
use dn42_autopeer.World.Types.{World}
use dn42_autopeer.World.Action.{Action}
use dn42_autopeer.World.Triple.{
  Ends, Triple, Triple-bind, Triple-pure, Triple-fact, Triple-if, Triple-lift,
}
use dn42_autopeer.Manager.State.{PeerManager}
use dn42_autopeer.Manager.Bird.Files.{Files, resolve, current_files}
use dn42_autopeer.Manager.Bird.Sync.{desired_files, install, sync_bird_configs_for}
use dn42_autopeer.Manager.Bird.Switch.{kept}
use dn42_autopeer.Manager.Bird.Install.{install-Safe}
use dn42_autopeer.Manager.Bird.Desired.{desired_files-AreDistinct}
use dn42_autopeer.Manager.Bird.Ready.{
  conf_files, Ready, Ready-shows, ensure_bird_layout-Ready, matches-Ready, reload_bird-Ready,
}

module _ {A : Type 0} {P : World → Type 0} {Q : A → World → Type 0}
    {E F : PeerError → World → Type 0} where
  -- Less is said of a failure.
  failing :
      (m : Action A)
      → ((e : PeerError) (w : World) → E e w → F e w)
      → Triple P m Q E
      → Triple P m Q F
  failing m k t = record { at = λ w h. go (m w).0 (m w).1 (t.at w h) }
    where
      go : (r : Result A) (w : World) → Ends Q E r w → Ends Q F r w
      go (ok a) w h = h
      go (err e) w h = k e w h

-- What a sync leaves: the desired files, or files that were the desired ones all along; after an
-- error, also the old files or no link.
abbrev pub IsSynced : PeerManager → List Peer → Files → Result (Unit {0}) → Option Files → Type 0
IsSynced self peers old (ok _) files =
    (desired : Files) × (desired_files self (keep is_desired peers) [] ≡ ok desired)
    × ((files ≡ some desired) ⊎ ((files ≡ some old) × (conf_files old [] ≡ desired)))
IsSynced self peers old (err e) files =
    (files ≡ some old)
    ⊎ (files ≡ none)
    ⊎ ((desired : Files) × (desired_files self (keep is_desired peers) [] ≡ ok desired)
        × (files ≡ some desired))

module _ (self : PeerManager) (peers : List Peer) (t : Text) (old : Files) where
  Good : Unit {0} → World → Type 0
  Good u w = IsSynced self peers old (ok u) (current_files w.bird)

  Bad : PeerError → World → Type 0
  Bad e w = IsSynced self peers old (err e) (current_files w.bird)

  Ready-Bad : (e : PeerError) (w : World) → Ready t old w → Bad e w
  unfolding Bad
  Ready-Bad e w h = inl (Ready-shows t old w h)

  install-Good :
      (desired : Files)
      → desired_files self (keep is_desired peers) [] ≡ ok desired
      → Triple (Ready t old) (install self desired) Good Bad
  unfolding Good Bad
  install-Good desired e = record {
    at = λ w h.
        let fine = desired_files-AreDistinct self (keep is_desired peers) desired e in
        go (install self desired w).0 (install self desired w).1 (
          (install-Safe w.bird.generations t old desired h.files self fine.0 fine.1).at w
            (ap (λ o. record { generations = w.bird.generations; current = o }) h.link));
  }
    where
      go :
          (r : Result (Unit {0})) (v : World)
          → Ends
              (λ _ u. current_files u.bird ≡ some desired)
              (λ _ u.
                (current_files u.bird ≡ some old)
                ⊎ (current_files u.bird ≡ some desired)
                ⊎ (current_files u.bird ≡ none))
              r
              v
          → Ends Good Bad r v
      go (ok u) v k = (desired, e, inl k)
      go (err x) v (inl k) = inl k
      go (err x) v (inr (inl k)) = inr (inr (desired, e, k))
      go (err x) v (inr (inr k)) = inr (inl k)

  sync-Good :
      (force : Bool) → Triple (Ready t old) (sync_bird_configs_for self peers force) Good Bad
  unfolding sync_bird_configs_for Good
  sync-Good force =
      Triple-bind _ _ (failing _ (Ready-Bad) (ensure_bird_layout-Ready t old self)) λ _.
        Triple-bind _ _ (Triple-lift _ Ready-Bad) λ desired. Triple-fact _ λ e.
          Triple-bind _ _ (failing _ Ready-Bad (matches-Ready t old self desired)) λ matches.
            Triple-fact _ λ same.
              Triple-if matches _ _
                (λ yes.
                  let good : (u : Unit) (w : World) → Ready t old w → Good u w =
                    λ u w h. (desired, e, inr (Ready-shows t old w h, same yes)) in
                  Triple-if force _ _ (λ _. kept _ (reload_bird-Ready t old self) good Ready-Bad)
                    (λ _. Triple-pure tt (good tt)))
                (λ _. install-Good desired e)

-- A sync of the configuration of BIRD switches it in one step: if the link `current` leads to a
-- generation, then after a success a reader of `current` finds exactly the files of the peers that
-- are desired, or the files from before, of which the configuration is just those; and after a
-- failure of whichever calls he finds the files from before, those of the peers, or no link; never
-- a part of a generation.
pub sync_bird_configs_for-switches :
    (self : PeerManager) (peers : List Peer) (force : Bool) (target : Text) (old : Files)
    (w : World)
    → w.bird.current ≡ some target
    → resolve target w.bird.generations ≡ some old
    → IsSynced self peers old
        (sync_bird_configs_for self peers force w).0
        (current_files (sync_bird_configs_for self peers force w).1.bird)
unfolding Good Bad
sync_bird_configs_for-switches self peers force target old w link files =
    go _ _ ((sync-Good self peers target old force).at w (record { link = link; files = files }))
  where
    go :
        (r : Result (Unit {0})) (v : World)
        → Ends (Good self peers target old) (Bad self peers target old) r v
        → IsSynced self peers old r (current_files v.bird)
    go (ok tt) v h = h
    go (err e) v h = h
