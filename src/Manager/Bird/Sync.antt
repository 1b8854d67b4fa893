-- ===== src/Manager/Bird/Sync.antt =====
-- src/manager.rs: `sync_bird_configs` and `sync_bird_configs_for`.
use dn42_autopeer.Base.{
  List, [], ◌∷◌, ◌++◌, if◌then◌else◌, ◌==◌, text_eq, Bool, false, Option, none, some, keep,
}
use dn42_autopeer.Base.Int.{pos}
use dn42_autopeer.Base.Text.{Text, text}
use dn42_autopeer.Base.Decimal.{decimal}
use dn42_autopeer.Error.{PeerError, IoError, display_error}
use dn42_autopeer.Result.{Result, ok, err}
use dn42_autopeer.External.{External}
use dn42_autopeer.Peer.{Peer, is_desired}
use dn42_autopeer.Template.{render}
use dn42_autopeer.World.Action.{
  Action, pure, raise, lift, call, ask, outcome, gets, for_each, ◌>>=◌, ◌>>◌,
}
use dn42_autopeer.Persist.{list_peers}
use dn42_autopeer.Manager.State.{PeerManager, iface_of, io_error, child}
use dn42_autopeer.Manager.Bird.Files.{
  Files, insert_file, dir_files, target_of, generations_path, current_path, unique_suffix,
  sync_directory, switch_current, ensure_bird_layout, current_generation_matches, remove_optional,
  write_atomic, remove_old_generations,
}
use dn42_autopeer.Manager.Bird.Reload.{reload_bird}

unfoldable pub exists : IoError
exists = record { is_not_found = false; raw_os_error = some (pos 17); message = text "File exists" }

-- `create_dir`, which refuses a name that is there.
unfoldable pub create_dir : Text → Text → Action Unit
unfolding exists
create_dir name path = do
  present ← gets (λ w. dir_files name w.bird.generations)
  elim present [
    | some _ ↦ raise (PeerError.bird_config_io exists path)
    | none ↦
        call
          (λ a w. record w {
            bird = record w.bird { generations = (name, []) ∷ w.bird.generations };
          })
          (io_error path)
  ]

module _ (self : PeerManager) where
  -- The rendering writes to a text and does not fail.
  unfoldable pub render_peer_config : Peer → Text
  render_peer_config peer = render (record {
    peer_id = peer.peer_id;
    peer_name = peer.peer_name;
    asn = peer.asn;
    local_asn = self.local_asn;
    iface = peer.iface_name;
    local_ll_ip = peer.local_ll_ip;
    remote_ll_ip = peer.remote_ll_ip;
  })

  -- The loop that fills `desired`.
  unfoldable pub desired_files : List Peer → Files → Result Files
  desired_files [] files = ok files
  desired_files (peer ∷ peers) files =
      let rest =
        desired_files peers
          (insert_file (peer.iface_name ++ text ".conf") (render_peer_config peer) files) in
      if peer.iface_name == iface_of peer.peer_id
      then rest
      else err (
          PeerError.validation (
            text "The database contains an invalid interface name for peer "
            ++ decimal peer.peer_id))

  unfoldable pub restore : Option Text → Action Unit
  restore (some target) = switch_current self target
  restore none = remove_optional (current_path self)

  -- After a refused reload: back to the generation before, and a second reload.
  unfoldable pub roll_back : Option Text → PeerError → Action Unit
  unfolding restore
  roll_back old_target reload_error = do
    restored ← outcome (restore old_target)
    elim restored [
      | err restore_error ↦ raise (
          PeerError.bird_reload (
            display_error reload_error
            ++ (text ". The previous generation could not be restored: "
                ++ display_error restore_error)))
      | ok _ ↦ do outcome (reload_bird self); raise reload_error
    ]

  unfoldable pub no_target : Result (Option Text) → Option Text
  no_target (ok target) = target
  no_target (err e) = none

  -- The part after the comparison: a new generation is written, `current` is switched to it, and
  -- BIRD reloads.
  unfoldable pub install : Files → Action Unit
  unfolding no_target
  install desired = do
    suffix ← unique_suffix
    let generation_name = text "generation-" ++ suffix
    let generation_path = child (generations_path self) generation_name
    create_dir generation_name generation_path
    for_each (λ (file : Text × Text). write_atomic generation_path generation_name file.0 file.1)
        desired
    sync_directory generation_path
    read ← outcome (ask (λ a w. ok w.bird.current) (io_error (current_path self)))
    switch_current self (target_of generation_name)
    reloaded ← outcome (reload_bird self)
    elim reloaded [
      | err reload_error ↦ roll_back (no_target read) reload_error
      | ok _ ↦ remove_old_generations self generation_name
    ]

  unfoldable pub sync_bird_configs_for : List Peer → Bool → Action Unit
  sync_bird_configs_for peers force_reload = do
    ensure_bird_layout self
    desired ← lift (desired_files (keep is_desired peers) [])
    matches ← current_generation_matches self desired
    if matches then (if force_reload then reload_bird self else pure tt) else install desired

  module _ ⦃lib : External⦄ where
    unfoldable pub sync_bird_configs : Action Unit
    sync_bird_configs = do peers ← list_peers; sync_bird_configs_for peers false
