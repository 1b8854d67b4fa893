-- ===== src/Main/Consistent.antt =====
-- src/main.rs: requests and background jobs keep the tables consistent.
use dn42_autopeer.Result.{Result, ok, err}
use dn42_autopeer.External.{External}
use dn42_autopeer.World.Action.{Action}
use dn42_autopeer.Manager.Apply.{sync_nft_ports-Keeps}
use dn42_autopeer.World.Keeps.{
  Keeps, Keeps-bind, Keeps-pure, Keeps-outcome, Keeps-call, keeps_rules,
}
use dn42_autopeer.Persist.Invariant.{IsConsistent}
use dn42_autopeer.Persist.Consistent.{
  Consistent, Consistent-IsStable, get_peer_infos_by_asn-Consistent,
}
use dn42_autopeer.Challenge.Keeps.{issue_challenge-Consistent, authorize_request-Consistent}
use dn42_autopeer.Handle.{
  AppState, Reply, create_challenge, get_peers, create_peer, update_peer, delete_peer, authorize,
  CreatePeerReq, UpdatePeerReq, DeletePeerReq,
}
use dn42_autopeer.Manager.{PeerManager}
use dn42_autopeer.Manager.Consistent.Operations
use dn42_autopeer.Manager.Consistent.Sync.{sync_pending_peer_changes-Consistent}
use dn42_autopeer.Main.Serve.{
  Request, post_challenge, get_asn, post_peer, patch_peer, remove_peer, Body, respond_with, serve,
}
use dn42_autopeer.Main.Listener.{
  Phase, connecting, listening, Wake, notification, retry, sync_logged, after_listen, after_connect,
  after_recv, connect_listener, listen_once, turn, nft_reconcile,
}

module _ {A : Type 0} where
  respond_with-Consistent :
      (body : A → Body) (handler : Action (Reply A))
      → Keeps Consistent handler
      → Keeps Consistent (respond_with body handler)
  unfolding respond_with
  respond_with-Consistent body handler k = Keeps-bind _ _ (Keeps-outcome _ k) (λ r. Keeps-pure _)

module _ ⦃lib : External⦄ (state : AppState) where
  create_peer-Consistent : (payload : CreatePeerReq) → Keeps Consistent (create_peer state payload)
  unfolding create_peer authorize
  create_peer-Consistent payload =
      search (keeps_rules, authorize_request-Consistent, Operations.create_peer-Consistent) depth 9

  update_peer-Consistent : (payload : UpdatePeerReq) → Keeps Consistent (update_peer state payload)
  unfolding update_peer authorize
  update_peer-Consistent payload =
      search (keeps_rules, authorize_request-Consistent, Operations.update_peer-Consistent) depth 9

  delete_peer-Consistent : (payload : DeletePeerReq) → Keeps Consistent (delete_peer state payload)
  unfolding delete_peer authorize
  delete_peer-Consistent payload =
      search (keeps_rules, authorize_request-Consistent, Operations.remove-Consistent) depth 9

  pub serve-Consistent : (request : Request) → Keeps Consistent (serve state request)
  unfolding serve create_challenge get_peers
  serve-Consistent (post_challenge asn) =
      respond_with-Consistent _ _
        (Keeps-bind _ _ (issue_challenge-Consistent asn) (λ _. Keeps-pure _))
  serve-Consistent (get_asn asn) =
      respond_with-Consistent _ _
        (Keeps-bind _ _ (get_peer_infos_by_asn-Consistent asn) (λ _. Keeps-pure _))
  serve-Consistent (post_peer payload) =
      respond_with-Consistent _ _ (create_peer-Consistent payload)
  serve-Consistent (patch_peer payload) =
      respond_with-Consistent _ _ (update_peer-Consistent payload)
  serve-Consistent (remove_peer payload) =
      respond_with-Consistent _ _ (delete_peer-Consistent payload)

pub nft_reconcile-Consistent : ⦃lib : External⦄ → Keeps Consistent nft_reconcile
unfolding nft_reconcile
nft_reconcile-Consistent =
    Keeps-bind _ _ (Keeps-outcome _ (sync_nft_ports-Keeps IsConsistent)) (λ _. Keeps-pure tt)

module _ ⦃lib : External⦄ (self : PeerManager) where
  sync_logged-Consistent : Keeps Consistent (sync_logged self)
  unfolding sync_logged
  sync_logged-Consistent =
      Keeps-bind _ _ (Keeps-outcome _ (sync_pending_peer_changes-Consistent self))
        (λ _. Keeps-pure listening)

  after_listen-Consistent : (r : Result (Unit {0})) → Keeps Consistent (after_listen self r)
  unfolding after_listen
  after_listen-Consistent (ok a) = sync_logged-Consistent
  after_listen-Consistent (err e) = Keeps-pure _

  after_connect-Consistent : (r : Result (Unit {0})) → Keeps Consistent (after_connect self r)
  unfolding after_connect
  after_connect-Consistent (ok a) =
      Keeps-bind _ _ (Keeps-outcome _ (Keeps-call _ _ Consistent-IsStable (λ a w h. h)))
        after_listen-Consistent
  after_connect-Consistent (err e) = Keeps-pure _

  after_recv-Consistent : (r : Result (Unit {0})) → Keeps Consistent (after_recv self r)
  unfolding after_recv
  after_recv-Consistent (ok a) = sync_logged-Consistent
  after_recv-Consistent (err e) = Keeps-pure _

  pub turn-Consistent : (phase : Phase) (wake : Wake) → Keeps Consistent (turn self phase wake)
  unfolding turn connect_listener listen_once
  turn-Consistent connecting wake =
      Keeps-bind _ _ (Keeps-outcome _ (Keeps-call _ _ Consistent-IsStable (λ a w h. h)))
        after_connect-Consistent
  turn-Consistent listening notification =
      Keeps-bind _ _ (Keeps-outcome _ (Keeps-call _ _ Consistent-IsStable (λ a w h. h)))
        after_recv-Consistent
  turn-Consistent listening retry = sync_logged-Consistent
