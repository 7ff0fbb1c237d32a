-- ===== src/Concurrency/Processor/Construct.antt =====
-- src/concurrency/TransactionProcessor.cpp: the constructor, pending, and the body of a consumer once
-- stop has asked for the end.
use bank_managment_system.Prelude.{
  ℕ, zero, suc, ◌+◌, ◌%◌, ◌^◌, ltb, true, false, if◌then◌else◌, none, some, List, [], ◌∷◌,
}
use bank_managment_system.Prelude.Exec.{Throws, ok, throw, pure, ◌>>=◌}
use bank_managment_system.Domain.Transaction.{TransactionRecord}
use bank_managment_system.Persistence.Wal.{Wal}
use bank_managment_system.Persistence.Wal.Load.{load_all}
use bank_managment_system.Concurrency.Queue.{empty_queue, wait_pop, size}
use bank_managment_system.Concurrency.Processor.{
  Services, Processor, Action, on_queue, take_reserved_id, process_impl,
}

-- The loops of std::max over the ids.
unfoldable pub max_id : ℕ → List TransactionRecord → ℕ
max_id m [] = m
max_id m (r ∷ rs) = max_id (if ltb m r.id then r.id else m) rs

module _ (s : Services) where
  -- The members at the end of the constructor.
  abbrev pub fresh_processor :
      s.accounts.State → s.transactions.State → s.audit.State → Wal → ℕ → ℕ → Processor s
  fresh_processor accounts transactions audit wal clock_calls max = record {
    queue = empty_queue;
    reserved = [];
    next_id = (max + 1) % 2 ^ 64;
    next_audit_id = 1;
    accepting = true;
    started = false;
    accounts = accounts;
    transactions = transactions;
    audit = audit;
    wal = wal;
    clock_calls = clock_calls;
  }

  -- The constructor, over the stores that it refers to.
  unfoldable pub construct :
      s.accounts.State → s.transactions.State → s.audit.State → Wal → ℕ → Throws (Processor s)
  unfolding max_id
  construct accounts transactions audit wal clock_calls =
      let (records, transactions') = s.transactions.all transactions in
      elim records [
        | throw ex ↦ throw ex
        | ok rs ↦ ok (
            fresh_processor accounts transactions' audit wal clock_calls
              (max_id (max_id 0 rs) (load_all wal)))
      ]

  unfoldable pub pending : Processor s → ℕ
  pending p = size p.queue

  -- The loop of a consumer whose token is stopped, so that wait_pop does not wait. Each round pops
  -- one transaction, so the length of the queue bounds the rounds.
  unfoldable pub consumer_rounds : ℕ → Action s (Unit {0})
  consumer_rounds zero = pure tt
  consumer_rounds (suc rounds) = do
    popped ← on_queue s wait_pop
    elim popped [
      | none ↦ pure tt
      | some txn ↦ do
        id ← take_reserved_id s
        result ← process_impl s txn id
        consumer_rounds rounds
    ]

  unfoldable pub consumer_loop : Action s (Unit {0})
  unfolding consumer_rounds
  consumer_loop p = consumer_rounds (suc (size p.queue)) p
