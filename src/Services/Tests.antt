-- ===== src/Services/Tests.antt =====
-- src/services/BankingService.cpp: runs on the accounts of the processor's examples.
use bank_managment_system.Prelude.{◌≡◌, ◌≢◌, refl, true, false, some}
use bank_managment_system.Prelude.Exec.{ok}
use bank_managment_system.Prelude.OrderedMap.{lookup}
use bank_managment_system.Core.{void_success}
use bank_managment_system.Domain.Types.{AccountId, AccountStatus}
use bank_managment_system.Domain.Account.{bump}
use bank_managment_system.Domain.Operations.{contains, involved_accounts}
use bank_managment_system.Domain.Transaction.{debit_account, credit_account}
use bank_managment_system.Persistence.Tests.{disk, disk-IsReliable}
use bank_managment_system.Concurrency.Processor.{process_impl}
use bank_managment_system.Concurrency.Processor.Local.{local}
use bank_managment_system.Concurrency.Processor.Settlement.{succeeded}
use bank_managment_system.Concurrency.Tests.{
  clock, account_of, ledger_with, before, before-IsLedger, account_1, nothing_written, move,
}
use bank_managment_system.Prelude.{none, List, [], ◌∷◌, ◌+◌, ◌++◌}
use bank_managment_system.Prelude.Text.{text}
use bank_managment_system.Core.{success}
use bank_managment_system.Domain.AuditEntry.{AuditEntry, AuditFilter}
use bank_managment_system.Persistence.InMemory.{in_memory_audit}
use bank_managment_system.Services.Audit
use bank_managment_system.Services.Audit.{first_audit_id, Trail}
use bank_managment_system.Services.Audit.Laws.{Matches, Selects, find-append}
use bank_managment_system.Services.Banking.{Bank, freeze, unfreeze}
use bank_managment_system.Services.Banking.Freeze.{freeze-process_impl, unfreeze-freeze}

abbrev bank : Bank (local disk clock)
bank = record { processor = before; next_audit_id = first_audit_id }

not_closed : AccountStatus.active ≢ AccountStatus.closed
not_closed e = cc

names_1 : contains (involved_accounts move) 1 ≡ true
unfolding involved_accounts debit_account credit_account
names_1 = refl

freeze-process_impl_example :
    let (r, b') = freeze (local disk clock) 1 bank in
    let (r', p') = process_impl (local disk clock) move 7 b'.processor in
    (r ≡ ok void_success)
    × (succeeded disk clock move 7 r' ≡ false)
    × (p'.accounts ≡ b'.processor.accounts)
freeze-process_impl_example =
    freeze-process_impl disk clock bank 1 (account_of 1 1000) move 7 disk-IsReliable before-IsLedger
      (account_1 500) not_closed names_1 (nothing_written 7 (ledger_with 500))

unfreeze-freeze_example :
    let (r, b') = freeze (local disk clock) 1 bank in
    let (r', b'') = unfreeze (local disk clock) 1 b' in
    (r ≡ ok void_success)
    × (r' ≡ ok void_success)
    × (lookup 1 b''.processor.accounts
        ≡ some (record (account_of 1 1000) { version = bump (bump 0) }))
    × ((j : AccountId) → j ≢ 1 → lookup j b''.processor.accounts ≡ lookup j bank.processor.accounts)
unfreeze-freeze_example =
    unfreeze-freeze disk clock bank 1 (account_of 1 1000) before-IsLedger (account_1 500) refl

-- A denied access of another actor.
abbrev denied : AuditEntry
denied = record {
  id = first_audit_id;
  timestamp = clock 0;
  actor_id = 5;
  action = text "auth.login";
  details = text "denied";
}

abbrev trail : Trail in_memory_audit
trail = record { entries = denied ∷ []; next_audit_id = first_audit_id + 1; clock_calls = 1 }

abbrev by_actor : AuditFilter
by_actor = record { action = none; actor = some 4; since = none }

find-append_example :
    let (v, t') = Audit.append in_memory_audit clock 4 (text "auth.login") (text "success") trail in
    let e : AuditEntry = record {
      id = trail.next_audit_id;
      timestamp = clock trail.clock_calls;
      actor_id = 4;
      action = text "auth.login";
      details = text "success";
    } in
    (v ≡ ok void_success)
    × ((out : List AuditEntry) × ((Audit.find in_memory_audit clock by_actor t').0
          ≡ ok (success out))
        × Selects (Matches by_actor) (trail.entries ++ e ∷ []) out)
find-append_example = find-append clock 4 (text "auth.login") (text "success") by_actor trail
