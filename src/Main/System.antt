-- ===== src/Main/System.antt =====
-- The service as a whole: requests, background jobs, crashes and starts, one at a time.
use dn42_autopeer.Base.{◌⊎◌, inl, inr}
use dn42_autopeer.Base.Text.{Text}
use dn42_autopeer.Result.{Result, ok, err}
use dn42_autopeer.External.{External}
use dn42_autopeer.World.Types.{World}
use dn42_autopeer.Main.Startup.{Env, Server, main}
use dn42_autopeer.Main.Serve.{Request, serve}
use dn42_autopeer.Main.Listener.{Phase, connecting, Wake, turn, nft_reconcile}

-- The process: it does not run, or it runs with what its start made, and the listener stands at a
-- phase.
pub data Process : Type 0 where
  down : Process
  up : Server → Phase → Process

pub record System : Type 0 where
  pub process : Process
  pub world : World

-- What the start leaves of the process.
abbrev pub launch : Text ⊎ Server → Process
launch (inl message) = down
launch (inr server) = up server connecting

abbrev pub next_phase : Server → Phase → Result Phase → Process
next_phase server phase (ok next) = up server next
next_phase server phase (err e) = up server phase

module _ ⦃lib : External⦄ where
  -- What can happen next.
  pub data Happens : System → System → Type 0 where
    starts :
        {w : World}
        → (env : Env)
        → Happens
            (record { process = down; world = w })
            (record { process = launch (main env w).0; world = (main env w).1 })
    serves :
        {server : Server} {phase : Phase} {w : World}
        → (request : Request)
        → Happens
            (record { process = up server phase; world = w })
            (record { process = up server phase; world = (serve server.state request w).1 })
    wakes :
        {server : Server} {phase : Phase} {w : World}
        → (wake : Wake)
        → Happens
            (record { process = up server phase; world = w })
            (record {
              process = next_phase server phase (turn server.state.manager phase wake w).0;
              world = (turn server.state.manager phase wake w).1;
            })
    reconciles :
        {server : Server} {phase : Phase} {w : World}
        → Happens
            (record { process = up server phase; world = w })
            (record { process = up server phase; world = (nft_reconcile w).1 })
    stops :
        {server : Server} {phase : Phase} {w : World}
        → Happens
            (record { process = up server phase; world = w })
            (record { process = down; world = w })

  -- The runs of the service, from its first moment on.
  pub data Run (first : System) : System → Type 0 where
    here : Run first first
    after : {s t : System} → Run first s → Happens s t → Run first t
