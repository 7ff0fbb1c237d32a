-- ===== src/Persistence/Repository.antt =====
-- src/persistence/*Repository.h: the interfaces that the services see. Each is a record of operations
-- on a state of its own; an operation may throw, as those of the SQLite engine do.
use bank_managment_system.Prelude.{Option, List}
use bank_managment_system.Prelude.Exec.{Exec}
use bank_managment_system.Domain.Types.{AccountId, CustomerId}
use bank_managment_system.Domain.Account.{Account}
use bank_managment_system.Domain.Customer.{Customer}
use bank_managment_system.Domain.Transaction.{TransactionRecord}
use bank_managment_system.Domain.AuditEntry.{AuditEntry, AuditFilter}

pub record AccountRepository : Type 1 where
  pub State : Type 0
  pub find_by_id : AccountId → Exec State (Option Account)
  pub all : Exec State (List Account)
  pub save : Account → Exec State (Unit {0})
  pub remove : AccountId → Exec State (Unit {0})

pub record TransactionRepository : Type 1 where
  pub State : Type 0
  pub append : TransactionRecord → Exec State (Unit {0})
  pub for_account : AccountId → Exec State (List TransactionRecord)
  pub all : Exec State (List TransactionRecord)

pub record AuditRepository : Type 1 where
  pub State : Type 0
  pub append : AuditEntry → Exec State (Unit {0})
  pub find : AuditFilter → Exec State (List AuditEntry)

pub record CustomerRepository : Type 1 where
  pub State : Type 0
  pub find_by_id : CustomerId → Exec State (Option Customer)
  pub save : Customer → Exec State (Unit {0})
