-- ===== src/Tests/Requests.antt =====
-- The theorems on requests, nonces and reservations at concrete inputs.
use dn42_autopeer.Base.{refl, [], none, list_beq, text_eq}
use dn42_autopeer.Base.Int.{pos}
use dn42_autopeer.World.Action.{
  execute, commit, acquire, call, settle, answer, pure, ◌>>=◌, continue,
}
use dn42_autopeer.World.Refuses.{IsErr, IsSame}
use dn42_autopeer.Persist.{redeem, is_redeemed, consume_nonce, unix_timestamp}
use dn42_autopeer.Challenge.{authorize_request}
use dn42_autopeer.Challenge.Guard.{IsUnknown, authorize_request-refuses, consume_nonce-IsUnknown}
use dn42_autopeer.Handle.{create_peer, update_peer, delete_peer}
use dn42_autopeer.Handle.Guard.{create_peer-refuses, update_peer-refuses, delete_peer-refuses}
use dn42_autopeer.Manager
use dn42_autopeer.Manager.DryRun.{IsUntouched, create_peer-IsUntouched}
use dn42_autopeer.Tests.Fixtures.{
  crates, state, manager, authorizer, world, stored_nonce, other_nonce, create_request,
  update_request, delete_request, peer, key,
}

create_peer-refuses_example :
    IsErr (create_peer ⦃lib = crates⦄ state create_request world).0
    × IsSame world (create_peer ⦃lib = crates⦄ state create_request world).1
unfolding list_beq
create_peer-refuses_example = create_peer-refuses ⦃lib = crates⦄ state create_request world refl

update_peer-refuses_example :
    IsErr (update_peer ⦃lib = crates⦄ state update_request world).0
    × IsSame world (update_peer ⦃lib = crates⦄ state update_request world).1
unfolding list_beq
update_peer-refuses_example = update_peer-refuses ⦃lib = crates⦄ state update_request world refl

delete_peer-refuses_example :
    IsErr (delete_peer ⦃lib = crates⦄ state delete_request world).0
    × IsSame world (delete_peer ⦃lib = crates⦄ state delete_request world).1
unfolding list_beq
delete_peer-refuses_example = delete_peer-refuses ⦃lib = crates⦄ state delete_request world refl

authorize_request-refuses_example :
    IsErr
      (authorize_request ⦃lib = crates⦄ authorizer 4242420001 [] [] other_nonce
        (pos 400)
        []
        world).0
    × IsSame world
        (authorize_request ⦃lib = crates⦄ authorizer 4242420001 [] [] other_nonce
          (pos 400)
          []
          world).1
unfolding list_beq
authorize_request-refuses_example =
    authorize_request-refuses ⦃lib = crates⦄ authorizer 4242420001 [] [] other_nonce (pos 400) []
      world refl

consume_nonce-IsUnknown_example :
    IsUnknown stored_nonce (consume_nonce 4242420001 stored_nonce (pos 400) world).1
unfolding list_beq consume_nonce unix_timestamp redeem is_redeemed execute commit acquire call
    settle answer pure ◌>>=◌ continue
consume_nonce-IsUnknown_example =
    consume_nonce-IsUnknown 4242420001 stored_nonce (pos 400) world
      (record { keys = tt; nonce_keys = (refl, tt) }) refl

create_peer-IsUntouched_example :
    IsUntouched world
      (Manager.create_peer manager ⦃lib = crates⦄ 4242420000 peer.peer_name key none none none
        world).1
create_peer-IsUntouched_example =
    create_peer-IsUntouched ⦃lib = crates⦄ manager peer.peer_name key none none none world
