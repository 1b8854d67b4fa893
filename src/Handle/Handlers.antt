-- ===== src/Handle/Handlers.antt =====
-- src/handle.rs: the handlers. The span fields that they record are not modelled.
use dn42_autopeer.Base.{ℕ, List, true, none, some, ◌++◌, if◌then◌else◌, ◌==◌, nat_eq}
use dn42_autopeer.Base.Text.{Text, text}
use dn42_autopeer.Base.Decimal.{decimal}
use dn42_autopeer.Ipv6.{display}
use dn42_autopeer.Result.{traverse}
use dn42_autopeer.External.{External}
use dn42_autopeer.Peer.{Peer}
use dn42_autopeer.World.Action.{Action, pure, lift, ◌>>=◌, ◌>>◌}
use dn42_autopeer.Persist.{PeerInfo, get_peer_infos_by_asn}
use dn42_autopeer.Challenge.{
  issue_challenge, authorize_request, build_create_message, build_update_message,
  build_delete_message,
}
use dn42_autopeer.Manager
use dn42_autopeer.Manager.Delete
use dn42_autopeer.Manager.{PeerManager}
use dn42_autopeer.Handle.Parse.{parse_peer_name, parse_endpoint, parse_link_local}
use dn42_autopeer.Handle.Requests.{
  Challenge, ChallengeResponse, CreatePeerReq, UpdatePeerReq, DeletePeerReq, PeerResponse, AppState,
}

-- The status and the body of a success.
abbrev pub Reply : Type 0 → Type 0
Reply A = ℕ × A

unfoldable pub create_challenge : ℕ → Action (Reply ChallengeResponse)
create_challenge asn = do
  issued ← issue_challenge asn
  pure (201, record { nonce = issued.0; expires_at = issued.1 })

unfoldable pub get_peers : ℕ → Action (Reply (List PeerInfo))
get_peers asn = do peers ← get_peer_infos_by_asn asn; pure (200, peers)

-- The body that `create_peer` returns.
unfoldable pub created : PeerManager → ℕ → Peer → PeerResponse
created manager asn peer =
    let test = asn == manager.local_asn in
    record {
      status = if test then text "test" else text "success";
      message =
          if test
          then text
              "Peer test passed. The database reservation was rolled back. No WireGuard, BIRD, or firewall configuration was applied."
          else text "The server configured the peer in BIRD and the kernel";
      peer_id = peer.peer_id;
      peer_name = peer.peer_name;
      wg_config = some (record {
        your_assigned_ip = display peer.remote_ll_ip ++ text "/64";
        my_endpoint = manager.public_endpoint ++ (text ":" ++ decimal peer.listen_port);
        my_pubkey = manager.local_wg_pubkey;
        allowed_ips = text "0.0.0.0/0, ::/0";
      });
      bgp_config = some (record {
        my_asn = manager.local_asn;
        my_neighbor_ip = display peer.local_ll_ip;
        multiprotocol = true;
        extended_next_hop = true;
      });
    }

-- The body that `update_peer` and `delete_peer` return.
unfoldable pub done : Text → Peer → PeerResponse
done message peer = record {
  status = text "success";
  message = message;
  peer_id = peer.peer_id;
  peer_name = peer.peer_name;
  wg_config = none;
  bgp_config = none;
}

module _ ⦃lib : External⦄ (state : AppState) where
  unfoldable pub authorize : ℕ → Challenge → Text → Action Unit
  authorize asn challenge message =
      authorize_request state.authorizer asn challenge.auth challenge.signature challenge.nonce
        challenge.expires_at message

  unfoldable pub create_peer : CreatePeerReq → Action (Reply PeerResponse)
  create_peer payload = do
    peer_name ← lift (parse_peer_name payload.peer_name)
    endpoint ← lift (parse_endpoint payload.endpoint)
    link_local ← lift (parse_link_local payload.manual_lla payload.local_ll_ip payload.remote_ll_ip)
    authorize payload.asn payload.challenge (
        build_create_message payload.asn peer_name payload.pubkey endpoint link_local payload.mtu
          payload.challenge.nonce payload.challenge.expires_at)
    peer ←
        Manager.create_peer state.manager payload.asn peer_name payload.pubkey endpoint link_local
          payload.mtu
    pure (201, created state.manager payload.asn peer)

  unfoldable pub update_peer : UpdatePeerReq → Action (Reply PeerResponse)
  update_peer payload = do
    peer_name ← lift (parse_peer_name payload.peer_name)
    endpoint ← lift (traverse parse_endpoint payload.endpoint)
    link_local ← lift (parse_link_local payload.manual_lla payload.local_ll_ip payload.remote_ll_ip)
    authorize payload.asn payload.challenge (
        build_update_message payload.asn peer_name payload.pubkey endpoint link_local payload.mtu
          payload.challenge.nonce payload.challenge.expires_at)
    peer ←
        Manager.update_peer state.manager payload.asn peer_name payload.pubkey endpoint link_local
          payload.mtu
    pure (200, done (text "The server updated the peer") peer)

  unfoldable pub delete_peer : DeletePeerReq → Action (Reply PeerResponse)
  delete_peer payload = do
    peer_name ← lift (parse_peer_name payload.peer_name)
    authorize payload.asn payload.challenge (
        build_delete_message payload.asn peer_name payload.challenge.nonce
          payload.challenge.expires_at)
    peer ← Delete.delete_peer state.manager payload.asn peer_name
    pure (200, done (text "The server removed the peer") peer)
