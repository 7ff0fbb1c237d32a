-- ===== src/Services.antt =====
-- src/services/: what the clients of the bank call.
pub mod Audit
pub mod Banking
pub mod Sessions
pub mod Auth
mod Tests
mod SessionTests
