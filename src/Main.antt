-- ===== src/Main.antt =====
-- src/main.rs: the start, the routes, the background jobs, and the service as a whole.
mod Boot
mod Startup
mod Serve
mod Listener
unfoldable pub use Boot.*
unfoldable pub use Startup.*
unfoldable pub use Serve.*
unfoldable pub use Listener.*
pub mod System
pub mod Consistent
pub mod Reachable
pub mod Configured
pub mod Answers
pub mod Turns
