-- ===== src/Manager/Search.antt =====
-- src/manager.rs: the search for a port of `reserve_peer`.
pub mod Goal
mod Insert
mod Number
mod Loop
use dn42_autopeer.Base.{
  some, zero, suc, ◌+◌, ◌%◌, ◌-◌, ◌≤◌, ◌<◌, ◌≢◌, ◌∙◌, List, [], ◌∷◌, ◌++◌, any, Bool, true, false,
  ◌&&◌, ◌||◌, none, ◌⊎◌, if◌then◌else◌, nat_eq, text_eq, Bool-cases, ltb, ◌^◌,
}
use dn42_autopeer.Base.Int.{pos, try_u32, try_unsigned, u32_as_i32, widen, int_eq}
use dn42_autopeer.Base.Text.{Text, text}
use dn42_autopeer.Error.{SqlError}
use dn42_autopeer.Result.{Result, ok_or}
use dn42_autopeer.World.Action.{Action, lift, acquire, advance, sql_error}
use dn42_autopeer.World.Keeps.{IsStable}
use dn42_autopeer.Netlink.{listen_port_in_use}
use dn42_autopeer.Ipv6.{Ipv6}
use dn42_autopeer.WgPubKey.{WgPubKey}
use dn42_autopeer.Peer.{Peer}
use dn42_autopeer.World.Types.{World, Db, Row, Failure}
use dn42_autopeer.World.Keeps.{IsStable, Keeps}
use dn42_autopeer.World.Triple.{Triple, Gives, Triple-pure, Triple-raise, Triple-if}
use dn42_autopeer.World.Calls.{Triple-call, Triple-statement, Triple-elim_Bool}
use dn42_autopeer.Persist.{
  commit_transaction, plain, plain, commit_transaction, insert_peer, enqueue, pending, stage,
  reserve_peer, peer_exists, select, allocate_peer_id, next_peer_id, too_long,
}
use dn42_autopeer.Netlink.InUse.{listens, listen_port_in_use-Gives}
use dn42_autopeer.Manager.Create.{candidate_port}
use dn42_autopeer.Manager.DryRun.{sequences, IsUntouched-IsStable, sequences}
use dn42_autopeer.Manager.Search.Goal.{no_free_port, IsStored}
