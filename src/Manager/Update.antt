-- ===== src/Manager/Update.antt =====
-- src/manager.rs: `update_peer` and the compensation of a failed update.
use dn42_autopeer.Base.{ℕ, Bool, true, false, not, Option, none, some, if◌then◌else◌}
use dn42_autopeer.Base.Text.{Text}
use dn42_autopeer.Error.{PeerError}
use dn42_autopeer.Result.{ok, err, ok_or}
use dn42_autopeer.External.{External}
use dn42_autopeer.Ipv6.{Ipv6}
use dn42_autopeer.WgPubKey.{WgPubKey}
use dn42_autopeer.Peer.{Peer, PeerStatus, is_deleting}
use dn42_autopeer.World.Action.{Action, pure, raise, lift, outcome, is_ok, ◌>>=◌, ◌>>◌}
use dn42_autopeer.Persist.{get_peer, update_peer_desired, set_status}
use dn42_autopeer.Manager.State.{PeerManager, asn_link_local}
use dn42_autopeer.Manager.Wireguard.{apply_peer}

abbrev new_endpoint : Option (Option Text) → Option Text → Option Text
new_endpoint none old = old
new_endpoint (some endpoint) old = endpoint

-- `mtu.unwrap_or(Some(old)).unwrap_or(1420)`
abbrev new_mtu : Option (Option ℕ) → ℕ → ℕ
new_mtu none old = old
new_mtu (some none) old = 1420
new_mtu (some (some mtu)) old = mtu

abbrev local_of : Option (Ipv6 × Ipv6) → Ipv6 → Ipv6
local_of none auto = auto
local_of (some (here, there)) auto = here

abbrev remote_of : Option (Ipv6 × Ipv6) → Ipv6 → Ipv6
remote_of none auto = auto
remote_of (some (here, there)) auto = there

module _ (self : PeerManager) where
  -- `desired_peer`
  unfoldable pub desired_peer :
      Peer → ℕ → WgPubKey → Option (Option Text) → Option (Ipv6 × Ipv6) → Option (Option ℕ) → Peer
  desired_peer old asn pubkey endpoint link_local mtu = record old {
    pubkey = pubkey;
    endpoint = new_endpoint endpoint old.endpoint;
    local_ll_ip = local_of link_local (asn_link_local self.local_asn);
    remote_ll_ip = remote_of link_local (asn_link_local asn);
    mtu = new_mtu mtu old.mtu;
    status = PeerStatus.provisioning;
  }

  module _ ⦃lib : External⦄ where
    unfoldable pub reactivate : Bool → ℕ → Action Unit
    reactivate true peer_id = do outcome (set_status peer_id PeerStatus.active); pure tt
    reactivate false peer_id = pure tt

    unfoldable pub compensate_failed_update : Peer → Action Unit
    unfolding reactivate
    compensate_failed_update old_peer = do
      restored ← outcome (update_peer_desired old_peer)
      elim restored [
        | err e ↦ pure tt
        | ok _ ↦ do
          applied ← outcome (apply_peer self old_peer)
          reactivate (is_ok applied) old_peer.peer_id
      ]

    -- The part after the desired state is stored.
    unfoldable pub apply_update : Peer → Peer → ℕ → Text → Action Peer
    apply_update old_peer desired asn peer_name = do
      applied ← outcome (apply_peer self desired)
      elim applied [
        | err e ↦ do compensate_failed_update old_peer; raise e
        | ok _ ↦ do
          active ← set_status desired.peer_id PeerStatus.active
          if not active
              then raise (PeerError.not_found asn peer_name)
              else pure (record desired { status = PeerStatus.active })
      ]

    unfoldable pub update_peer :
        ℕ
        → Text
        → WgPubKey
        → Option (Option Text)
        → Option (Ipv6 × Ipv6)
        → Option (Option ℕ)
        → Action Peer
    update_peer asn peer_name pubkey endpoint link_local mtu = do
      row ← get_peer asn peer_name
      old_peer ← lift (ok_or row (PeerError.not_found asn peer_name))
      if is_deleting old_peer.status then raise (PeerError.not_found asn peer_name) else (do
        let desired = desired_peer old_peer asn pubkey endpoint link_local mtu
        stored ← update_peer_desired desired
        if not stored
            then raise (PeerError.not_found asn peer_name)
            else apply_update old_peer desired asn peer_name)
