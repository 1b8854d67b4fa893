-- ===== src/Persist/Events.antt =====
-- src/persist.rs: the trigger on `peers` records every change.
use dn42_autopeer.Base.{ℕ, ◌+◌, ◌≡◌, length, nat_eq}
use dn42_autopeer.Base.Int.{int_eq}
use dn42_autopeer.Base.Text.{Text}
use dn42_autopeer.Peer.{Peer}
use dn42_autopeer.World.Types.{Db}

-- As many events as rows that the statement says it wrote.
abbrev pub Records : Db → ℕ → Db → Type 0
Records before n after = length after.events ≡ length before.events + n
