-- ===== src/World.antt =====
-- The state outside the process, and the calls that read and write it: the database, the links of
-- the kernel, the configuration directory of BIRD, and the port set of nftables.
--
-- A call may fail. What the outside decides at a call is an `Answer`; the world holds the answers
-- to all calls to come, so a statement for every world is one for every pattern of failures. A
-- failed call may have had its effect all the same, as when the reply to a commit is lost.
pub mod Types
pub mod Action
pub mod Keeps
pub mod Triple
pub mod Calls
pub mod Returns
pub mod Refuses
pub mod Follows
