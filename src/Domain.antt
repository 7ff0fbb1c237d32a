-- ===== src/Domain.antt =====
-- src/domain/: the value types and the bank rules.
pub mod Types
pub mod Money
pub mod Account
pub mod Transaction
pub mod Operations
pub mod AuditEntry
pub mod Session
pub mod PasswordHasher
pub mod Customer
pub mod Tests
