-- ===== src/Handle/Requests.antt =====
-- src/handle.rs: the bodies of requests and responses.
use dn42_autopeer.Base.{ℕ, Bool, Option}
use dn42_autopeer.Base.Int.{ℤ}
use dn42_autopeer.Base.Text.{Text}
use dn42_autopeer.WgPubKey.{WgPubKey}
use dn42_autopeer.Challenge.{RequestAuthorizer}
use dn42_autopeer.Manager.{PeerManager}

pub record Challenge : Type 0 where
  pub auth : Text
  pub signature : Text
  pub nonce : Text
  pub expires_at : ℤ

pub record ChallengeResponse : Type 0 where
  pub nonce : Text
  pub expires_at : ℤ

pub record CreatePeerReq : Type 0 where
  pub asn : ℕ
  pub peer_name : Text
  pub pubkey : WgPubKey
  pub endpoint : Option Text
  pub manual_lla : Bool
  pub local_ll_ip : Option Text
  pub remote_ll_ip : Option Text
  pub mtu : Option ℕ
  pub challenge : Challenge

-- The outer option is the presence of the field.
pub record UpdatePeerReq : Type 0 where
  pub asn : ℕ
  pub peer_name : Text
  pub pubkey : WgPubKey
  pub endpoint : Option (Option Text)
  pub manual_lla : Bool
  pub local_ll_ip : Option Text
  pub remote_ll_ip : Option Text
  pub mtu : Option (Option ℕ)
  pub challenge : Challenge

pub record DeletePeerReq : Type 0 where
  pub asn : ℕ
  pub peer_name : Text
  pub challenge : Challenge

pub record WgConfig : Type 0 where
  pub your_assigned_ip : Text
  pub my_endpoint : Text
  pub my_pubkey : Text
  pub allowed_ips : Text

pub record BgpConfig : Type 0 where
  pub my_asn : ℕ
  pub my_neighbor_ip : Text
  pub multiprotocol : Bool
  pub extended_next_hop : Bool

pub record PeerResponse : Type 0 where
  pub status : Text
  pub message : Text
  pub peer_id : ℕ
  pub peer_name : Text
  pub wg_config : Option WgConfig
  pub bgp_config : Option BgpConfig

pub record AppState : Type 0 where
  pub manager : PeerManager
  pub authorizer : RequestAuthorizer
