-- ===== src/Manager.antt =====
-- src/manager.rs: the peer manager. Its locks order the operations of concurrent tasks; the model
-- runs one operation at a time, so they do nothing here.
mod State
mod Nft
pub mod Bird
mod Wireguard
mod Create
mod Update
pub mod Delete
mod Changes
mod Recover
unfoldable pub use State.*
unfoldable pub use Nft.*
unfoldable pub use Wireguard.*
unfoldable pub use Create.*
unfoldable pub use Update.*
unfoldable pub use Changes.*
unfoldable pub use Recover.*
pub mod Ports
pub mod DryRun
pub mod Search
pub mod Deleted
pub mod Apply
pub mod Consistent
pub mod Addresses
pub mod Drain
