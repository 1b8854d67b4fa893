-- ===== src/Challenge.antt =====
-- src/challenge.rs: challenges, signed messages, and the authorisation of a request.
mod Messages
mod Signature
mod Registry
mod Authorize
unfoldable pub use Messages.*
unfoldable pub use Signature.*
unfoldable pub use Registry.*
unfoldable pub use Authorize.*
pub mod Guard
pub mod Registered
pub mod Vouching
pub mod Sound
pub mod Issue
pub mod Keeps
pub mod Ambiguity
pub mod Lines
pub mod Binding
