-- ===== src/Error/Laws.antt =====
-- What a client and the log learn of an error.
use dn42_autopeer.Base.{◌≡◌, ◌⊎◌, ◌↔◌, ◌≤◌, arith}
use dn42_autopeer.Error.Types.{PeerError}
use dn42_autopeer.Error.Response.{log_info, into_response, Level}

-- The error comes from the kernel, from BIRD, from nftables or from the database.
abbrev pub IsInternal : PeerError → Type 0
IsInternal (PeerError.netlink source iface) = Unit {0}
IsInternal (PeerError.bird_config_io source path) = Unit {0}
IsInternal (PeerError.bird_reload stderr) = Unit {0}
IsInternal (PeerError.nftables detail) = Unit {0}
IsInternal (PeerError.database source) = Unit {0}
IsInternal _ = ⊥

-- Every error response has a status from 400 to 503, is logged as an error exactly if the status
-- is 500 or more, and outside the internal errors its body carries the code that is logged.
pub into_response-log :
    (e : PeerError)
    → (400 ≤ (into_response e).status)
      × ((into_response e).status ≤ 503)
      × (((into_response e).level ≡ Level.error) ↔ (500 ≤ (into_response e).status))
      × (IsInternal e ⊎ ((into_response e).error ≡ (log_info e).code))
unfolding into_response log_info
into_response-log (PeerError.database s) = ground arith
into_response-log _ = ground arith
