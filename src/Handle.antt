-- ===== src/Handle.antt =====
-- src/handle.rs: the HTTP handlers, the validation of requests and the bodies of responses.
mod Parse
mod Requests
mod Handlers
unfoldable pub use Parse.*
unfoldable pub use Requests.*
unfoldable pub use Handlers.*
pub mod Guard
pub mod Authorized
pub mod Names
pub mod LinkLocal
