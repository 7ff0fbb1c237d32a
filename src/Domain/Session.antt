-- ===== src/Domain/Session.antt =====
-- src/domain/Session.h.
use bank_managment_system.Prelude.Int.{ℤ}
use bank_managment_system.Prelude.Text.{Bytes}
use bank_managment_system.Domain.Types.{CustomerId, Role, SessionState}

pub record Session : Type 0 where
  pub token : Bytes
  pub customer_id : CustomerId
  pub role : Role
  pub state : SessionState
  pub expires_at : ℤ
