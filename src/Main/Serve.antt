-- ===== src/Main/Serve.antt =====
-- src/main.rs: the routes, and what a handler's result becomes.
use dn42_autopeer.Base.{ℕ, List}
use dn42_autopeer.Error.{into_response}
use dn42_autopeer.Error.Response.{Response}
use dn42_autopeer.Result.{Result, ok, err}
use dn42_autopeer.External.{External}
use dn42_autopeer.World.Action.{Action, pure, outcome, ◌>>=◌}
use dn42_autopeer.Persist.{PeerInfo}
use dn42_autopeer.Handle.{
  ChallengeResponse, CreatePeerReq, UpdatePeerReq, DeletePeerReq, PeerResponse, AppState, Reply,
  create_challenge, get_peers, create_peer, update_peer, delete_peer,
}

-- A request that the router and the extractors have accepted.
pub data Request : Type 0 where
  post_challenge : ℕ → Request
  get_asn : ℕ → Request
  post_peer : CreatePeerReq → Request
  patch_peer : UpdatePeerReq → Request
  remove_peer : DeletePeerReq → Request

pub data Body : Type 0 where
  challenge_issued : ChallengeResponse → Body
  peer_list : List PeerInfo → Body
  peer_done : PeerResponse → Body
  failure : Response → Body

-- `IntoResponse` of the result of a handler: a status with a body.
unfoldable pub into_reply : {A : Type 0} → (A → Body) → Result (Reply A) → ℕ × Body
into_reply body (ok (status, a)) = (status, body a)
into_reply body (err e) = ((into_response e).status, failure (into_response e))

unfoldable pub respond_with : {A : Type 0} → (A → Body) → Action (Reply A) → Action (ℕ × Body)
respond_with body handler = do result ← outcome handler; pure (into_reply body result)

-- The routes of the service.
unfoldable pub serve : ⦃lib : External⦄ → AppState → Request → Action (ℕ × Body)
serve state (post_challenge asn) = respond_with challenge_issued (create_challenge asn)
serve state (get_asn asn) = respond_with peer_list (get_peers asn)
serve state (post_peer payload) = respond_with peer_done (create_peer state payload)
serve state (patch_peer payload) = respond_with peer_done (update_peer state payload)
serve state (remove_peer payload) = respond_with peer_done (delete_peer state payload)
