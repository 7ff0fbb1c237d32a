-- ===== src/Domain/AuditEntry.antt =====
-- src/domain/AuditEntry.h and src/persistence/AuditFilter.h.
use bank_managment_system.Prelude.{ℕ, Option}
use bank_managment_system.Prelude.Int.{ℤ}
use bank_managment_system.Prelude.Text.{Bytes}
use bank_managment_system.Domain.Types.{CustomerId}

pub record AuditEntry : Type 0 where
  pub id : ℕ
  pub timestamp : ℤ
  pub actor_id : CustomerId
  pub action : Bytes
  pub details : Bytes

pub record AuditFilter : Type 0 where
  pub action : Option Bytes
  pub actor : Option CustomerId
  pub since : Option ℤ
