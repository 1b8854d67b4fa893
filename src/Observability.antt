-- ===== src/Observability.antt =====
-- src/observability.rs: the ID and the level of a request in the log, and the level of a stage.
pub mod Requests
pub mod Ids
