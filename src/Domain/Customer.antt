-- ===== src/Domain/Customer.antt =====
-- src/domain/Customer.h.
use bank_managment_system.Prelude.Text.{Bytes}
use bank_managment_system.Domain.Types.{CustomerId, Role}
use bank_managment_system.Domain.PasswordHasher.{PasswordHash}

pub record Customer : Type 0 where
  pub id : CustomerId
  pub name : Bytes
  pub pin_hash : PasswordHash
  pub role : Role
