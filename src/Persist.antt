-- ===== src/Persist.antt =====
-- src/persist.rs: the tables and the queries of the peer store. An SQL statement is a function on
-- the tables that does what the statement says, with its constraints, and the trigger on `peers`.
mod Rows
mod Nonces
mod Peers
pub mod Invariant
pub mod Consistent
unfoldable pub use Rows.*
unfoldable pub use Nonces.*
unfoldable pub use Peers.*
pub mod RoundTrip
pub mod Events
pub mod Listed
pub mod NonceMap
