-- ===== src/Concurrency/Tests.antt =====
-- src/concurrency/TransactionProcessor.cpp: runs on two accounts and an empty journal.
use bank_managment_system.Prelude.{
  ℕ, ◌*◌, ◌≤◌, ◌≡◌, refl, true, false, some, List, [], ◌∷◌, ◌++◌, ◌↔◌, arith,
}
use bank_managment_system.Prelude.Int.{ℤ, pos}
use bank_managment_system.Prelude.Text.{text}
use bank_managment_system.Prelude.Exec.{ok}
use bank_managment_system.Prelude.OrderedMap.{lookup}
use bank_managment_system.Core.{success, failure}
use bank_managment_system.Domain.Types.{AccountId, AccountStatus}
use bank_managment_system.Domain.Money.{Money, int64_max}
use bank_managment_system.Domain.Account.{Account}
use bank_managment_system.Domain.Account.Laws.{credited, debited}
use bank_managment_system.Domain.Transaction.{Transaction}
use bank_managment_system.Domain.Operations.{contains, involved_accounts}
use bank_managment_system.Domain.Operations.Effect.{MayTransfer}
use bank_managment_system.Domain.Types.{TransactionId}
use bank_managment_system.Persistence.InMemory.{Accounts}
use bank_managment_system.Persistence.InMemory.Laws.{IsLedger}
use bank_managment_system.Persistence.Wal.{open_journal}
use bank_managment_system.Persistence.Wal.Laws.{Lacks}
use bank_managment_system.Persistence.Tests.{disk, disk-IsReliable}
use bank_managment_system.Concurrency.Queue.{empty_queue}
use bank_managment_system.Concurrency.Processor.{process_impl, process_until_empty}
use bank_managment_system.Concurrency.Processor.Local.{local, Local}
use bank_managment_system.Concurrency.Processor.Outcome.{committed_record, intent}
use bank_managment_system.Concurrency.Processor.Settlement.{
  Settles, succeeded, process_impl-Settles, process_impl-others,
}
use bank_managment_system.Concurrency.Processor.Permits.{Permits, process_impl-Permits_iff}
use bank_managment_system.Concurrency.Processor.Trail.{Traces, process_impl-Traces}
use bank_managment_system.Concurrency.Processor.Transfers.{
  process_transfer, process_transfer_overflow,
}
use bank_managment_system.Concurrency.Processor.Invariant.{Inv}
use bank_managment_system.Concurrency.Processor.Runs.{Call, run, run-Inv}
use bank_managment_system.Concurrency.Processor.Drain.{Drained, process_until_empty-Drained}

abbrev pub clock : ℕ → ℤ
clock n = pos (1_000_000 * n)

abbrev pub account_of : AccountId → ℕ → Account
account_of id cents = record {
  id = id;
  owner_id = id;
  balance = record { cents = cents };
  status = AccountStatus.active;
  version = 0;
}

abbrev pub ledger_with : ℕ → Accounts
ledger_with cents = (1, account_of 1 1000) ∷ (2, account_of 2 cents) ∷ (3, account_of 3 0) ∷ []

ledger_with-IsLedger : (cents : ℕ) → cents ≤ int64_max → IsLedger (ledger_with cents)
ledger_with-IsLedger cents h = record {
  sorted = ((omega arith, (omega arith, tt)), ((omega arith, tt), (tt, tt)));
  keyed = (refl, (refl, (refl, tt)));
  fit = (omega arith, (h, (omega arith, tt)));
}

abbrev pub started : Accounts → Local disk clock
started m = record {
  queue = empty_queue;
  reserved = [];
  next_id = 1;
  next_audit_id = 1;
  accepting = true;
  started = false;
  accounts = m;
  transactions = [];
  audit = [];
  wal = open_journal (text "wal.log") [];
  clock_calls = 0;
}

abbrev pub amount : Money
amount = record { cents = 300 }

abbrev pub move : Transaction
move = Transaction.transfer 1 2 amount

move-MayTransfer : (cents : ℕ) → MayTransfer 1 2 amount (account_of 1 1000) (account_of 2 cents)
move-MayTransfer cents = record {
  differ = omega arith;
  positive = omega arith;
  source_active = refl;
  target_active = refl;
  covered = omega arith;
}

abbrev pub before : Local disk clock
before = started (ledger_with 500)

abbrev full : Local disk clock
full = started (ledger_with int64_max)

pub nothing_written : (id : TransactionId) (m : Accounts) → Lacks id (started m).wal.entries
unfolding open_journal
nothing_written id m = tt

pub before-IsLedger : IsLedger before.accounts
before-IsLedger = ledger_with-IsLedger 500 (omega arith)

full-IsLedger : IsLedger full.accounts
full-IsLedger = ledger_with-IsLedger int64_max (omega arith)

pub account_1 : (cents : ℕ) → lookup 1 (ledger_with cents) ≡ some (account_of 1 1000)
unfolding lookup
account_1 cents = refl

account_2 : (cents : ℕ) → lookup 2 (ledger_with cents) ≡ some (account_of 2 cents)
unfolding lookup
account_2 cents = refl

process_impl-Settles_example :
    let (r, p') = process_impl (local disk clock) move 7 before in
    Settles move before.accounts r p'.accounts
process_impl-Settles_example =
    process_impl-Settles disk clock move 7 before disk-IsReliable
      (nothing_written 7 (ledger_with 500)) before-IsLedger

process_impl-Permits_iff_example :
    (succeeded disk clock move 7 (process_impl (local disk clock) move 7 before).0 ≡ true)
    ↔ Permits before.accounts move
process_impl-Permits_iff_example =
    process_impl-Permits_iff disk clock move 7 before disk-IsReliable
      (nothing_written 7 (ledger_with 500)) before-IsLedger

third_unnamed : contains (involved_accounts move) 3 ≡ false
unfolding involved_accounts
third_unnamed = refl

process_impl-others_example :
    lookup 3 (process_impl (local disk clock) move 7 before).1.accounts ≡ lookup 3 before.accounts
process_impl-others_example =
    process_impl-others disk clock move 7 before 3 disk-IsReliable
      (nothing_written 7 (ledger_with 500)) before-IsLedger third_unnamed

process_impl-Traces_example :
    Traces disk clock move 7 before (process_impl (local disk clock) move 7 before)
process_impl-Traces_example =
    process_impl-Traces disk clock move 7 before disk-IsReliable
      (nothing_written 7 (ledger_with 500))

process_transfer_example :
    let (r, p') = process_impl (local disk clock) move 7 before in
    (r ≡ ok (success (committed_record disk clock move 7 before)))
    × (lookup 1 p'.accounts ≡ some (debited amount (account_of 1 1000)))
    × (lookup 2 p'.accounts ≡ some (credited amount (account_of 2 500)))
process_transfer_example =
    process_transfer disk clock 7 1 2 amount before (account_of 1 1000) (account_of 2 500)
      disk-IsReliable (nothing_written 7 (ledger_with 500)) before-IsLedger (account_1 500)
      (account_2 500) (move-MayTransfer 500) (omega arith)

process_transfer_overflow_example :
    let (r, p') = process_impl (local disk clock) move 7 full in
    (r ≡ ok (failure (text "Money: addition overflow")))
    × (p'.accounts ≡ full.accounts)
    × (p'.transactions ≡ full.transactions)
    × (p'.wal.entries ≡ full.wal.entries ++ intent disk clock move 7 full ∷ [])
process_transfer_overflow_example =
    process_transfer_overflow disk clock 7 1 2 amount full (account_of 1 1000)
      (account_of 2 int64_max) disk-IsReliable (nothing_written 7 (ledger_with int64_max))
      full-IsLedger (account_1 int64_max) (account_2 int64_max) (move-MayTransfer int64_max)
      (omega arith)

before-Inv : Inv disk clock before
unfolding open_journal
before-Inv = record {
  ledger = before-IsLedger;
  ids = record {
    journal_below = tt;
    journal_distinct = tt;
    reserved_below = tt;
    reserved_distinct = tt;
    apart = tt;
  };
  paired = refl;
  open_queue = refl;
}

abbrev calls : List Call
calls = Call.submits move ∷ Call.processes (Transaction.deposit 3 amount) ∷ Call.takes_next ∷ []

run-Inv_example :
    ((run (local disk clock) calls before).0 ≡ ok tt)
    × Inv disk clock (run (local disk clock) calls before).1
run-Inv_example = run-Inv disk clock disk-IsReliable calls before before-Inv (omega arith)

-- The processor with two transactions in its queue.
abbrev waiting : Local disk clock
waiting = record before {
  queue = record { items = move ∷ Transaction.withdraw 9 amount ∷ []; closed = false };
  reserved = 1 ∷ 2 ∷ [];
  next_id = 3;
}

waiting-Inv : Inv disk clock waiting
unfolding open_journal
waiting-Inv = record {
  ledger = before-IsLedger;
  ids = record {
    journal_below = tt;
    journal_distinct = tt;
    reserved_below = (omega arith, (omega arith, tt));
    reserved_distinct = (((omega arith, tt)), (tt, tt));
    apart = (tt, (tt, tt));
  };
  paired = refl;
  open_queue = refl;
}

process_until_empty-Drained_example :
    Drained disk clock waiting.queue.items waiting.reserved
      (process_until_empty (local disk clock) waiting)
process_until_empty-Drained_example =
    process_until_empty-Drained disk clock disk-IsReliable waiting waiting-Inv
