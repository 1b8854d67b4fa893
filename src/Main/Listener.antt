-- ===== src/Main/Listener.antt =====
-- src/main.rs: `run_peer_change_listener`, and the job that reconciles the port set.
use dn42_autopeer.Result.{Result, ok, err}
use dn42_autopeer.External.{External}
use dn42_autopeer.World.Action.{Action, pure, outcome, call, sql_error, ◌>>=◌, ◌>>◌}
use dn42_autopeer.Manager.{PeerManager, sync_pending_peer_changes, sync_nft_ports}

-- Where the loop stands: before it connects, or in the inner loop.
pub data Phase : Type 0 where
  connecting listening : Phase

-- Which branch of the `select!` comes first.
pub data Wake : Type 0 where
  notification retry : Wake

module _ ⦃lib : External⦄ (self : PeerManager) where
  -- A sync whose error is logged.
  unfoldable pub sync_logged : Action Phase
  sync_logged = do outcome (sync_pending_peer_changes self); pure listening

  unfoldable pub after_listen : Result (Unit {0}) → Action Phase
  after_listen (err e) = pure connecting
  after_listen (ok _) = sync_logged

  unfoldable pub after_connect : Result (Unit {0}) → Action Phase
  unfolding after_listen
  after_connect (err e) = pure connecting
  after_connect (ok _) = do
    subscribed ← outcome (call (λ a w. w) sql_error)
    after_listen subscribed

  -- `connect_with`, `listen`, and the first sync.
  unfoldable pub connect_listener : Action Phase
  unfolding after_connect after_listen
  connect_listener = do connected ← outcome (call (λ a w. w) sql_error); after_connect connected

  unfoldable pub after_recv : Result (Unit {0}) → Action Phase
  after_recv (ok _) = sync_logged
  after_recv (err e) = pure connecting

  -- One turn of the inner loop.
  unfoldable pub listen_once : Wake → Action Phase
  unfolding after_recv
  listen_once notification = do received ← outcome (call (λ a w. w) sql_error); after_recv received
  listen_once retry = sync_logged

  -- One turn of the loop, which no branch of its body leaves.
  unfoldable pub turn : Phase → Wake → Action Phase
  turn connecting wake = connect_listener
  turn listening wake = listen_once wake

-- A turn of the job: an error is logged.
unfoldable pub nft_reconcile : ⦃lib : External⦄ → Action Unit
nft_reconcile = do outcome sync_nft_ports; pure tt
