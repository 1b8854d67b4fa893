-- ===== src/Manager/Wireguard.antt =====
-- src/manager.rs: `apply_wireguard`, `apply_peer`, `remove_external_state`, and name resolution.
use dn42_autopeer.Base.{◌++◌, Option, none, some, if◌then◌else◌, first}
use dn42_autopeer.Base.Text.{Text, text}
use dn42_autopeer.Error.{PeerError}
use dn42_autopeer.Result.{ok, ok_or}
use dn42_autopeer.External.{External}
use dn42_autopeer.Peer.{Peer}
use dn42_autopeer.Netlink.{
  ensure_wg_interface, configure_peer, configure_local_address, delete_interface,
}
use dn42_autopeer.World.Types.{Failure}
use dn42_autopeer.World.Action.{Action, pure, lift, ask, ◌>>=◌, ◌>>◌}
use dn42_autopeer.Manager.State.{PeerManager}
use dn42_autopeer.Manager.Bird.{sync_bird_configs}

dns_error : Text → Failure → PeerError
dns_error endpoint f =
    if f.timed_out
    then PeerError.validation (text "DNS lookup timed out for endpoint " ++ endpoint)
    else PeerError.validation (text "DNS lookup failed for endpoint " ++ endpoint)

unfoldable pub resolve_endpoint : Text → Action Text
unfolding dns_error
resolve_endpoint endpoint = do
  addresses ← ask (λ a w. ok a.addresses) (dns_error endpoint)
  lift (
      ok_or (first addresses)
        (PeerError.validation (text "DNS lookup returned no addresses for endpoint " ++ endpoint)))

unfoldable pub resolved : Option Text → Action (Option Text)
resolved none = pure none
resolved (some endpoint) = do address ← resolve_endpoint endpoint; pure (some address)

module _ (self : PeerManager) ⦃lib : External⦄ where
  unfoldable pub apply_wireguard : Peer → Action Unit
  unfolding resolved
  apply_wireguard peer = do
    ensure_wg_interface peer.iface_name peer.peer_id peer.mtu
    endpoint ← resolved peer.endpoint
    configure_peer peer.iface_name self.local_wg_privkey peer.listen_port peer.pubkey endpoint
    configure_local_address peer.iface_name peer.local_ll_ip

  unfoldable pub apply_peer : Peer → Action Unit
  apply_peer peer = do apply_wireguard peer; sync_bird_configs self

  unfoldable pub remove_external_state : Peer → Action Unit
  remove_external_state peer = do sync_bird_configs self; delete_interface peer.iface_name
