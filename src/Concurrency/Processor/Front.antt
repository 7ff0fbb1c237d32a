-- ===== src/Concurrency/Processor/Front.antt =====
-- src/concurrency/TransactionProcessor.cpp over the in-memory repositories: process_impl on the front
-- of the queue, under the front of the reserved ids.
use bank_managment_system.Prelude.{ℕ, ◌≡◌, ap, subst, List, ◌∷◌, length, arith}
use bank_managment_system.Prelude.Int.{ℤ}
use bank_managment_system.Prelude.Exec.{ok}
use bank_managment_system.Core.{Result}
use bank_managment_system.Domain.Types.{TransactionId}
use bank_managment_system.Domain.Transaction.{Transaction, TransactionRecord}
use bank_managment_system.Persistence.Wal.{Disk}
use bank_managment_system.Persistence.Wal.Laws.{IsReliable}
use bank_managment_system.Concurrency.Queue.{TransactionQueue}
use bank_managment_system.Concurrency.Processor.{process_impl}
use bank_managment_system.Concurrency.Processor.Local.{local, Local}
use bank_managment_system.Concurrency.Processor.Ids.{Ids, Ids-pop}
use bank_managment_system.Concurrency.Processor.Steps.{popped}
use bank_managment_system.Concurrency.Processor.Invariant.{
  Inv, Kept, process-Kept, process-returns, process-Inv,
}

module _ (disk : Disk) (time_at : ℕ → ℤ) (reliable : IsReliable disk) where
  -- The call on the front of the queue, under the front of the reserved ids.
  module _ (p : Local disk time_at) (h : Inv disk time_at p) (txn : Transaction)
      (items : List Transaction) (id : TransactionId) (reserved : List TransactionId)
      (e : p.queue.items ≡ txn ∷ items) (f : p.reserved ≡ id ∷ reserved) where
    pub front_ids : Ids p.next_id p.wal.entries (id ∷ reserved)
    front_ids = subst (Ids p.next_id p.wal.entries) f h.ids

    pub popped-Inv : Inv disk time_at (popped disk time_at items reserved p)
    popped-Inv = record {
      ledger = h.ledger;
      ids = Ids-pop front_ids;
      paired =
          omega
            (arith, h.paired, ap (length {A = Transaction}) e, ap (length {A = TransactionId}) f);
      open_queue = h.open_queue;
    }

    pub front-returns :
        (r : Result TransactionRecord) × ((process_impl
            (local disk time_at)
            txn
            id
            (popped disk time_at items reserved p)).0
          ≡ ok r)
    front-returns =
        process-returns disk time_at reliable txn id (popped disk time_at items reserved p)
          popped-Inv front_ids.reserved_below.0 front_ids.apart.0 front_ids.reserved_distinct.0

    pub front-Kept :
        Kept disk time_at reliable
          (popped disk time_at items reserved p)
          (process_impl (local disk time_at) txn id (popped disk time_at items reserved p)).1
    front-Kept =
        process-Kept disk time_at reliable txn id (popped disk time_at items reserved p) popped-Inv
          front_ids.reserved_below.0 front_ids.apart.0 front_ids.reserved_distinct.0

    pub front-Inv :
        Inv disk time_at
          (process_impl (local disk time_at) txn id (popped disk time_at items reserved p)).1
    front-Inv =
        process-Inv disk time_at reliable txn id (popped disk time_at items reserved p) popped-Inv
          front_ids.reserved_below.0 front_ids.apart.0 front_ids.reserved_distinct.0

    pub front-queue :
        ((process_impl
            (local disk time_at)
            txn
            id
            (popped disk time_at items reserved p)).1.queue.items
          ≡ items)
        × ((process_impl
              (local disk time_at)
              txn
              id
              (popped disk time_at items reserved p)).1.reserved
            ≡ reserved)
    front-queue =
        (ap (λ (q : TransactionQueue). q.items) front-Kept.same_queue, front-Kept.same_reserved)
