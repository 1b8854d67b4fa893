-- ===== src/Tests/Service.antt =====
-- The theorems on authorisation, challenges and the service as a whole at concrete inputs.
use dn42_autopeer.Base.{◌↔◌, ◌⊎◌, ℕ, arith, ◌≡◌, refl, [], ◌∷◌, none, false, true, list_beq}
use dn42_autopeer.Base.Int.{pos}
use dn42_autopeer.Result.{ok}
use dn42_autopeer.Challenge.{authorize_request, issue_challenge}
use dn42_autopeer.Persist.{consume_nonce}
use dn42_autopeer.Challenge.Sound.{IsAuthorized, authorize_request-IsAuthorized}
use dn42_autopeer.Challenge.Issue.{issue_challenge-redeems, issue_challenge-issues}
use dn42_autopeer.Manager.{sync_pending_peer_changes}
use dn42_autopeer.Manager.Drain.{sync_pending_peer_changes-drains}
use dn42_autopeer.Persist.Listed.{has_event}
use dn42_autopeer.Persist.Consistent.{Consistent}
use dn42_autopeer.Persist.NonceMap.{AreSame, view, live, opens, is_none, put, take, nonces-refine}
use dn42_autopeer.World.Triple.{Gives}
use dn42_autopeer.Base.{if◌then◌else◌}
use dn42_autopeer.Main.{main, serve, post_peer, post_challenge, turn, connecting, retry, retry}
use dn42_autopeer.Main.Answers.{IsAnswer, IsOutcome, IsSigned, serve-IsAnswer}
use dn42_autopeer.Main.Reachable.{Run-Consistent}
use dn42_autopeer.Main.Configured.{IsReady, Run-IsReady}
use dn42_autopeer.Manager.Bird.{reload_bird}
use dn42_autopeer.Manager.Bird.Answer.{IsAccepted, reload_bird_iff}
use dn42_autopeer.Base.{nat_eq}
use dn42_autopeer.Tests.Fixtures.{bird_answers}
use dn42_autopeer.Manager.Delete
use dn42_autopeer.Manager.Deleted.{IsDeleted, delete_peer-deletes}
use dn42_autopeer.Main.Turns.{Synced, Reconnects, turn-syncs}
use dn42_autopeer.Main.System.{launch, here, after, starts, serves}
use dn42_autopeer.World.Action.{
  ◌>>=◌, answer, pure, lift, acquire, execute, call, commit, continue, raise, settle,
}
use dn42_autopeer.Persist.{unix_timestamp, redeem, is_redeemed}
use dn42_autopeer.Challenge.{
  verify_signature, try_acquire, check_registry_for_asn_and_pubkey, registry_result, as_text,
  attribute_value, attributes, check_maintainers, expected_auth_strings, has_auth, http_get,
  maintainer_name, maintainers, served,
}
use dn42_autopeer.Base.Text.{
  contains_text, text, ends_with, find_text, is_whitespace, starts_with, trim, trim_start,
}
use dn42_autopeer.Base.Decimal.{decimal}
use dn42_autopeer.World.Action.{ask, respond, outcome}
use dn42_autopeer.Persist.{
  list_peer_changes, rows_to_changes, sort_events, insert_event, row_to_peer, str_to_status,
  get_peer_by_id, list_peers, sort_rows, rows_to_peers, delete_peer_change, remove_event,
}
use dn42_autopeer.Base.Int.{try_unsigned}
use dn42_autopeer.WgPubKey.{try_from}
use dn42_autopeer.Base.Text.{utf8_len}
use dn42_autopeer.Ipv6.{parse_ipv6}
use dn42_autopeer.Manager.{
  sync_changes, apply_peer_change, follow, remove_external_state, sync_nft_ports,
  sync_nft_ports_for, run_nft_batch,
}
use dn42_autopeer.Manager.Bird.{
  sync_bird_configs, sync_bird_configs_for, ensure_bird_layout, switch_current,
  atomic_switch_current, unique_suffix, rename_current, sync_directory, current_generation_matches,
  current_files, resolve, dir_files, read_entries, files_beq, desired_files,
}
use dn42_autopeer.Netlink.{delete_interface, find_link}
use dn42_autopeer.Challenge.{allocate_nonce}
use dn42_autopeer.Persist.{insert_nonce, delete_expired, add_nonce}
use dn42_autopeer.Manager.Bird.Shows.{IsSynced, sync_bird_configs_for-switches}
use dn42_autopeer.Tests.Fixtures.{
  peer, crates, state, manager, authorizer, world, stored_nonce, other_nonce, create_request,
  registered_world, running, stopped, pending_world, db, bird_world, old_files,
}

authorize_request-IsAuthorized_example :
    IsAuthorized ⦃lib = crates⦄ registered_world [] 7 [] [] stored_nonce (pos 400) []
unfolding authorize_request consume_nonce ◌>>=◌ unix_timestamp answer pure lift verify_signature
    contains_text text try_acquire acquire execute redeem is_redeemed list_beq
    check_registry_for_asn_and_pubkey decimal ends_with find_text is_whitespace starts_with trim
    trim_start registry_result as_text attribute_value attributes check_maintainers
    expected_auth_strings has_auth http_get maintainer_name maintainers served call commit continue
    raise settle
authorize_request-IsAuthorized_example =
    authorize_request-IsAuthorized ⦃lib = crates⦄ authorizer 7 [] [] stored_nonce (pos 400) []
      registered_world refl

serve-IsAnswer_example :
    IsAnswer
      (serve ⦃lib = crates⦄ state (post_peer create_request) world).0
      (IsOutcome (IsSigned ⦃lib = crates⦄ world state (post_peer create_request)))
serve-IsAnswer_example = serve-IsAnswer ⦃lib = crates⦄ state (post_peer create_request) world

Run-Consistent_example : Consistent (serve ⦃lib = crates⦄ state (post_challenge 7) world).1
Run-Consistent_example =
    Run-Consistent ⦃lib = crates⦄ running _ (record { keys = tt; nonce_keys = (refl, tt) })
      (after here (serves (post_challenge 7)))

Run-IsReady_example : IsReady ⦃lib = crates⦄ (launch (main ⦃lib = crates⦄ (λ name. none) world).0)
Run-IsReady_example = Run-IsReady ⦃lib = crates⦄ stopped _ refl (after here (starts (λ name. none)))

turn-syncs_example :
    Synced ⦃lib = crates⦄ manager 2 world (turn ⦃lib = crates⦄ manager connecting retry world)
    ⊎ Reconnects ⦃lib = crates⦄ manager 2 world (turn ⦃lib = crates⦄ manager connecting retry world)
turn-syncs_example = turn-syncs ⦃lib = crates⦄ manager connecting retry world

sync_pending_peer_changes-drains_example :
    has_event 1 (sync_pending_peer_changes manager ⦃lib = crates⦄ pending_world).1.db.events ≡ false
unfolding sync_pending_peer_changes ◌>>=◌ continue list_peer_changes acquire execute lift
    rows_to_changes sort_events insert_event row_to_peer try_unsigned try_from utf8_len parse_ipv6
    text str_to_status sync_changes apply_peer_change get_peer_by_id follow remove_external_state
    sync_bird_configs list_peers sort_rows rows_to_peers sync_bird_configs_for ensure_bird_layout
    switch_current atomic_switch_current unique_suffix rename_current sync_directory
    current_generation_matches current_files resolve dir_files read_entries files_beq desired_files
    call settle ask respond outcome pure raise answer commit list_beq delete_interface find_link
    sync_nft_ports sync_nft_ports_for run_nft_batch delete_peer_change remove_event
sync_pending_peer_changes-drains_example =
    sync_pending_peer_changes-drains ⦃lib = crates⦄ manager 1 pending_world (omega arith, tt) refl
      refl

issue_challenge-issues_example : (issue_challenge 7 world).0 ≡ ok (other_nonce, pos 400)
unfolding list_beq
issue_challenge-issues_example = issue_challenge-issues 7 world (λ n. refl) refl

issue_challenge-redeems_example :
    (consume_nonce 7 other_nonce (pos 400) (issue_challenge 7 world).1).0 ≡ ok true
unfolding list_beq issue_challenge ◌>>=◌ unix_timestamp answer pure allocate_nonce insert_nonce
    acquire execute delete_expired add_nonce
issue_challenge-redeems_example =
    issue_challenge-redeems 7 other_nonce (pos 400) world (issue_challenge 7 world).1 refl refl
      (λ n. refl) refl

sync_bird_configs_for-switches_example :
    IsSynced manager
      (peer ∷ [])
      old_files
      (sync_bird_configs_for manager (peer ∷ []) false bird_world).0
      (current_files (sync_bird_configs_for manager (peer ∷ []) false bird_world).1.bird)
unfolding resolve text list_beq
sync_bird_configs_for-switches_example =
    sync_bird_configs_for-switches manager (peer ∷ []) false (text "generations/g") old_files
      bird_world refl refl

nonces-refine_example :
    Gives
      (λ _ after. AreSame (view after.nonces) (λ n. live (pos 100) (view db.nonces n)))
      (delete_expired (pos 100) 100 db)
    × Gives {A = ℕ}
        (λ rows after.
          (rows ≡ (if is_none (view db.nonces other_nonce) then 1 else 0))
          × AreSame (view after.nonces) (
              if is_none (view db.nonces other_nonce)
              then put other_nonce (pos 7, pos 400) (view db.nonces)
              else view db.nonces))
        (add_nonce other_nonce (pos 7) (pos 400) 100 db)
    × Gives {A = ℕ}
        (λ rows after.
          (rows ≡ (if opens (pos 7) (pos 400) (pos 100) (view db.nonces other_nonce) then 1 else 0))
          × AreSame (view after.nonces) (
              take
                (opens (pos 7) (pos 400) (pos 100) (view db.nonces other_nonce))
                other_nonce
                (view db.nonces)))
        (redeem other_nonce (pos 7) (pos 400) (pos 100) 100 db)
nonces-refine_example = nonces-refine other_nonce (pos 7) (pos 400) (pos 100) 100 db (refl, tt)

reload_bird_iff_example : ((reload_bird manager bird_answers).0 ≡ ok tt) ↔ IsAccepted bird_answers
reload_bird_iff_example = reload_bird_iff manager bird_answers

delete_peer-deletes_example :
    IsDeleted
      (Delete.delete_peer manager ⦃lib = crates⦄ 4242420001 peer.peer_name world).0
      (Delete.delete_peer manager ⦃lib = crates⦄ 4242420001 peer.peer_name world).1
delete_peer-deletes_example =
    delete_peer-deletes ⦃lib = crates⦄ manager 4242420001 peer.peer_name world
