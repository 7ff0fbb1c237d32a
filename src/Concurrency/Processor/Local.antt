-- ===== src/Concurrency/Processor/Local.antt =====
-- src/concurrency/TransactionProcessor.cpp over the in-memory repositories: what each stage of
-- process_impl does to the state.
use bank_managment_system.Prelude.{
  ℕ, ◌+◌, ◌%◌, ◌^◌, ◌≡◌, refl, Option, none, some, List, [], ◌∷◌, ◌++◌,
}
use bank_managment_system.Prelude.Int.{ℤ}
use bank_managment_system.Prelude.Text.{Bytes, text, to_string}
use bank_managment_system.Prelude.Exec.{ok, bind-ok}
use bank_managment_system.Prelude.OrderedMap.{lookup, insert_or_assign}
use bank_managment_system.Core.{failure}
use bank_managment_system.Domain.Types.{AccountId, CustomerId}
use bank_managment_system.Domain.Account.{Account}
use bank_managment_system.Domain.AuditEntry.{AuditEntry}
use bank_managment_system.Persistence.InMemory.{
  Accounts, in_memory_accounts, in_memory_transactions, in_memory_audit,
}
use bank_managment_system.Persistence.InMemory.Laws.{saved}
use bank_managment_system.Persistence.Wal.{Disk}
use bank_managment_system.Concurrency.Processor.{
  Services, Processor, append_audit, fail, keep_loaded, load, save_all,
}

abbrev pub local : Disk → (ℕ → ℤ) → Services
local disk time_at = record {
  accounts = in_memory_accounts;
  transactions = in_memory_transactions;
  audit = in_memory_audit;
  disk = disk;
  time_at = time_at;
}

-- What the loading loop finds.
abbrev pub keep_found : AccountId → List Account × Bytes → Option Account → List Account × Bytes
keep_found id later none = ([], text "account not found: " ++ to_string id)
keep_found id later (some a) = (a ∷ later.0, later.1)

abbrev pub found_in : Accounts → List AccountId → List Account × Bytes
found_in m [] = ([], [])
found_in m (id ∷ rest) = keep_found id (found_in m rest) (lookup id m)

module _ (disk : Disk) (time_at : ℕ → ℤ) where
  abbrev pub Local : Type 0
  Local = Processor (local disk time_at)

  abbrev pub entry_at : CustomerId → Bytes → Bytes → Local → AuditEntry
  entry_at actor action details p = record {
    id = p.next_audit_id;
    timestamp = time_at p.clock_calls;
    actor_id = actor;
    action = action;
    details = details;
  }

  -- The state after one audit entry.
  abbrev pub audited : CustomerId → Bytes → Bytes → Local → Local
  audited actor action details p = record p {
    audit = p.audit ++ entry_at actor action details p ∷ [];
    next_audit_id = (p.next_audit_id + 1) % 2 ^ 64;
    clock_calls = p.clock_calls + 1;
  }

  pub append_audit_lem :
      (actor : CustomerId) (action details : Bytes) (p : Local)
      → append_audit (local disk time_at) actor action details p
        ≡ (ok tt, audited actor action details p)
  unfolding append_audit
  append_audit_lem actor action details p = refl

  pub fail_lem :
      (details message : Bytes) (p : Local)
      → fail (local disk time_at) details message p
        ≡ (ok (failure message), audited 0 (text "txn.failed") details p)
  unfolding fail append_audit
  fail_lem details message p = refl

  keep_loaded_lem :
      (id : AccountId) (rest : List AccountId) (p : Local) (o : Option Account)
      → load (local disk time_at) rest p ≡ (ok (found_in p.accounts rest), p)
      → keep_loaded (local disk time_at) id (load (local disk time_at) rest) o p
        ≡ (ok (keep_found id (found_in p.accounts rest) o), p)
  keep_loaded_lem id rest p none h = refl
  keep_loaded_lem id rest p (some a) h = bind-ok (load (local disk time_at) rest) _ p p _ h

  pub load_lem :
      (ids : List AccountId) (p : Local)
      → load (local disk time_at) ids p ≡ (ok (found_in p.accounts ids), p)
  unfolding load
  load_lem [] p = refl
  load_lem (id ∷ rest) p = keep_loaded_lem id rest p (lookup id p.accounts) (load_lem rest p)

  pub save_all_lem :
      (l : List Account) (p : Local)
      → save_all (local disk time_at) l p ≡ (ok tt, record p { accounts = saved l p.accounts })
  unfolding save_all
  save_all_lem [] p = refl
  save_all_lem (a ∷ l) p =
      save_all_lem l (record p { accounts = insert_or_assign a.id a p.accounts })
