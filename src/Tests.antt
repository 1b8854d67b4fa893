-- ===== src/Tests.antt =====
-- The theorems at concrete inputs.
pub mod Fixtures
pub mod Requests
pub mod Service
pub mod Values
pub mod Messages
