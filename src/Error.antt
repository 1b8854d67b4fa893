-- ===== src/Error.antt =====
-- src/error.rs: the error type of the peer domain, what is logged of it, and its HTTP response.
-- The errors of other crates are records of what this program reads of them.
mod Types
pub mod Response
pub mod Laws
unfoldable pub use Types.*
unfoldable pub use Response.*
