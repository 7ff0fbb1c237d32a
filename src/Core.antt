-- ===== src/Core.antt =====
-- src/core/Result.h: the return type of the services and of the transaction processor.
use bank_managment_system.Prelude.{Bool, Option, none, some, is_some, [], is_empty}
use bank_managment_system.Prelude.Text.{Bytes}

-- Result<T> keys off the optional value.
pub record Result {ℓ} (A : Type ℓ) : Type ℓ where
  pub result_value : Option A
  pub error : Bytes

module _ {ℓ} {A : Type ℓ} where
  abbrev pub success : A → Result A
  success a = record { result_value = some a; error = [] }

  abbrev pub failure : Bytes → Result A
  failure message = record { result_value = none; error = message }

  abbrev pub is_ok : Result A → Bool
  is_ok r = is_some r.result_value

-- Result<void> keys off the error text alone.
pub record VoidResult : Type 0 where
  pub error : Bytes

abbrev pub void_success : VoidResult
void_success = record { error = [] }

abbrev pub void_failure : Bytes → VoidResult
void_failure message = record { error = message }

abbrev pub void_ok : VoidResult → Bool
void_ok r = is_empty r.error
