-- ===== src/Manager/Bird.antt =====
-- src/manager.rs: the configuration of BIRD. Each configuration is a directory of its own, a
-- generation, and the link `current` is switched from one to the next.
mod Files
mod Reload
mod Sync
unfoldable pub use Files.*
unfoldable pub use Reload.*
unfoldable pub use Sync.*
pub mod Keeps
pub mod Directory
pub mod Answer
pub mod Write
pub mod Switch
pub mod Install
pub mod Desired
pub mod Shows
pub mod Clean
pub mod Ready
