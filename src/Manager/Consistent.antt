-- ===== src/Manager/Consistent.antt =====
-- src/manager.rs: every operation of the manager keeps the tables consistent, whatever fails.
pub mod Operations
pub mod Sync
