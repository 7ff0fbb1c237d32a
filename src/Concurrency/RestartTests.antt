-- ===== src/Concurrency/RestartTests.antt =====
-- src/concurrency/TransactionProcessor.cpp: runs and a restart, by a clock that stands still.
use bank_managment_system.Prelude.{ℕ, ◌≡◌, refl, true, false, List, [], ◌∷◌, arith}
use bank_managment_system.Prelude.Int.{ℤ, pos}
use bank_managment_system.Prelude.Text.{text}
use bank_managment_system.Prelude.Exec.{ok}
use bank_managment_system.Domain.Transaction.{debit_account, credit_account, amount_of}
use bank_managment_system.Persistence.Wal.{open_journal}
use bank_managment_system.Persistence.Wal.Synced.{empty-IsSynced}
use bank_managment_system.Persistence.Tests.{disk, disk-IsReliable}
use bank_managment_system.Concurrency.Queue.{empty_queue}
use bank_managment_system.Concurrency.Processor.{process_until_empty}
use bank_managment_system.Concurrency.Processor.Local.{local, Local}
use bank_managment_system.Concurrency.Processor.Invariant.{Inv}
use bank_managment_system.Concurrency.Processor.Stores.{IsJournalable, Stores}
use bank_managment_system.Concurrency.Processor.Runs.{Call, run}
use bank_managment_system.Concurrency.Processor.Construct.{consumer_loop}
use bank_managment_system.Concurrency.Processor.Consumer.{
  dropping, consumer_loop-process_until_empty,
}
use bank_managment_system.Concurrency.Processor.Restart.{restart, Restarted, run-Restarted}
use bank_managment_system.Concurrency.Tests.{ledger_with, move, before-IsLedger}

abbrev still : ℕ → ℤ
still n = pos 5_000_000

abbrev steady : Local disk still
steady = record {
  queue = empty_queue;
  reserved = [];
  next_id = 1;
  next_audit_id = 1;
  accepting = true;
  started = false;
  accounts = ledger_with 500;
  transactions = [];
  audit = [];
  wal = open_journal (text "wal.log") [];
  clock_calls = 0;
}

steady-Inv : Inv disk still steady
unfolding open_journal
steady-Inv = record {
  ledger = before-IsLedger;
  ids = record {
    journal_below = tt;
    journal_distinct = tt;
    reserved_below = tt;
    reserved_distinct = tt;
    apart = tt;
  };
  paired = refl;
  open_queue = refl;
}

steady-Stores : Stores disk still steady
steady-Stores = record {
  positive = omega arith;
  synced = empty-IsSynced (text "wal.log");
  stored_below = tt;
  queue_writable = tt;
}

move-IsJournalable : IsJournalable move
unfolding debit_account credit_account amount_of
move-IsJournalable = record {
  from_small = omega arith;
  to_small = omega arith;
  amount_fits = omega arith;
}

abbrev few_calls : List Call
few_calls = Call.processes move ∷ Call.submits move ∷ []

run-Restarted_example :
    let end = (run (local disk still) few_calls steady).1 in
    (q : Local disk still) × (restart disk still end ≡ ok q) × Restarted disk still end q
run-Restarted_example =
    run-Restarted disk still few_calls steady disk-IsReliable (λ n. omega arith)
      (move-IsJournalable, (move-IsJournalable, tt)) steady-Inv steady-Stores (omega arith)

-- One transaction is left in the queue, which stop has closed.
abbrev closing : Local disk still
closing = record steady {
  queue = record { items = move ∷ []; closed = true };
  reserved = 1 ∷ [];
  next_id = 2;
}

consumer_loop-process_until_empty_example :
    consumer_loop (local disk still) closing
    ≡ dropping (local disk still) (process_until_empty (local disk still) closing)
consumer_loop-process_until_empty_example =
    consumer_loop-process_until_empty (local disk still) closing
