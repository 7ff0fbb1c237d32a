-- ===== src/Concurrency/Consumers.antt =====
-- src/concurrency/TransactionProcessor.cpp: submit and the loops of several consumers, in the order in
-- which they hold the mutexes of the queue and of the reserved ids. What process_impl does in
-- between is left out here.
pub mod Pairing
use bank_managment_system.Prelude.{
  ℕ, zero, suc, ◌+◌, ◌%◌, ◌^◌, ◌≡◌, Option, none, some, List, [], ◌∷◌, ◌++◌,
}
use bank_managment_system.Domain.Types.{TransactionId}
use bank_managment_system.Domain.Transaction.{Transaction}

-- Where a consumer stands in its loop: in wait_pop, with a transaction in hand, or in process_impl.
pub data Consumer : Type 0 where
  waiting : Consumer
  holding : Transaction → Consumer
  processing : Transaction → TransactionId → Consumer

-- The queue and the ids, and the call of submit that has reserved its id and not yet queued its
-- transaction. The last four list, so far, what was queued and popped, and the ids that were
-- reserved and taken.
pub record Consumers : Type 0 where
  pub queue : List Transaction
  pub reserved : List TransactionId
  pub next_id : ℕ
  pub submitting : Option Transaction
  pub consumers : List Consumer
  pub accepted : List Transaction
  pub popped : List Transaction
  pub issued : List TransactionId
  pub taken : List TransactionId

-- The first part of submit.
unfoldable pub reserve_id : Transaction → Consumers → Consumers
reserve_id txn s = record s {
  reserved = s.reserved ++ s.next_id ∷ [];
  next_id = (s.next_id + 1) % 2 ^ 64;
  submitting = some txn;
  issued = s.issued ++ s.next_id ∷ [];
}

-- Its second part, on a queue that the processor never closes.
unfoldable pub enqueue_reserved : Transaction → Consumers → Consumers
enqueue_reserved txn s = record s {
  queue = s.queue ++ txn ∷ [];
  submitting = none;
  accepted = s.accepted ++ txn ∷ [];
}

-- What wait_pop does to a queue of a first transaction and others.
abbrev pub pop_front : Transaction → List Transaction → Consumers → Consumers
pop_front txn rest s = record s { queue = rest; popped = s.popped ++ txn ∷ [] }

-- take_reserved_id, with the reserved ids apart: the first one, or else a fresh one.
abbrev pub take_front : List TransactionId → Consumers → TransactionId × Consumers
take_front [] s =
    (s.next_id, record s { next_id = (s.next_id + 1) % 2 ^ 64; taken = s.taken ++ s.next_id ∷ [] })
take_front (id ∷ rest) s = (id, record s { reserved = rest; taken = s.taken ++ id ∷ [] })

unfoldable pub take_id : Consumers → TransactionId × Consumers
take_id s = take_front s.reserved s

-- One step of submit or of one consumer. A call of submit waits for the one before it.
pub data ConsumerStep : Consumers → Consumers → Type 0 where
  reserves :
      (s : Consumers) (txn : Transaction) → s.submitting ≡ none → ConsumerStep s (reserve_id txn s)
  enqueues :
      (s : Consumers) (txn : Transaction)
      → s.submitting ≡ some txn
      → ConsumerStep s (enqueue_reserved txn s)
  pops :
      (s : Consumers) (before after : List Consumer) (txn : Transaction) (rest : List Transaction)
      → s.consumers ≡ before ++ Consumer.waiting ∷ after
      → s.queue ≡ txn ∷ rest
      → ConsumerStep s
          (record (pop_front txn rest s) { consumers = before ++ Consumer.holding txn ∷ after })
  takes :
      (s : Consumers) (before after : List Consumer) (txn : Transaction)
      → s.consumers ≡ before ++ Consumer.holding txn ∷ after
      → ConsumerStep s (record ((take_id s).1) {
        consumers = before ++ Consumer.processing txn (take_id s).0 ∷ after;
      })
  finishes :
      (s : Consumers) (before after : List Consumer) (txn : Transaction) (id : TransactionId)
      → s.consumers ≡ before ++ Consumer.processing txn id ∷ after
      → ConsumerStep s (record s { consumers = before ++ Consumer.waiting ∷ after })

-- The processor over stores that are not empty, its consumers in their first wait_pop.
abbrev pub at_start : ℕ → List Consumer → Consumers
at_start next_id consumers = record {
  queue = [];
  reserved = [];
  next_id = next_id;
  submitting = none;
  consumers = consumers;
  accepted = [];
  popped = [];
  issued = [];
  taken = [];
}

abbrev pub waiting_consumers : ℕ → List Consumer
waiting_consumers zero = []
waiting_consumers (suc n) = Consumer.waiting ∷ waiting_consumers n

pub data ConsumersReach (worker_count next_id : ℕ) : Consumers → Type 0 where
  started : ConsumersReach worker_count next_id (at_start next_id (waiting_consumers worker_count))
  stepped :
      (s s' : Consumers)
      → ConsumersReach worker_count next_id s
      → ConsumerStep s s'
      → ConsumersReach worker_count next_id s'
