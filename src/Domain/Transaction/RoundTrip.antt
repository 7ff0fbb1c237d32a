-- ===== src/Domain/Transaction/RoundTrip.antt =====
-- src/domain/Transaction.cpp: project_transaction and then materialize_transaction.
use bank_managment_system.Prelude.{◌≡◌, refl}
use bank_managment_system.Prelude.Int.{ℤ}
use bank_managment_system.Prelude.Exec.{ok}
use bank_managment_system.Domain.Types.{TransactionId}
use bank_managment_system.Domain.Transaction.{
  Transaction, project_transaction, materialize_transaction,
}

-- A projected transaction is read back as it was, whatever its time and id.
pub materialize-project :
    (now : ℤ) (id : TransactionId) (txn : Transaction)
    → materialize_transaction (project_transaction now id txn) ≡ ok txn
unfolding materialize_transaction project_transaction
materialize-project now id (Transaction.deposit _ _) = refl
materialize-project now id (Transaction.withdraw _ _) = refl
materialize-project now id (Transaction.transfer _ _ _) = refl
