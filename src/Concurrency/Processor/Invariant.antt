-- ===== src/Concurrency/Processor/Invariant.antt =====
-- src/concurrency/TransactionProcessor.cpp over the in-memory repositories: the invariant between
-- calls.
use bank_managment_system.Prelude.{ℕ, ◌<◌, ◌≡◌, ◌≢◌, refl, false, All, length}
use bank_managment_system.Prelude.Int.{ℤ}
use bank_managment_system.Prelude.Exec.{Throws, ok, throw}
use bank_managment_system.Core.{Result}
use bank_managment_system.Domain.Types.{TransactionId}
use bank_managment_system.Domain.Transaction.{Transaction, TransactionRecord, project_transaction}
use bank_managment_system.Persistence.InMemory.{Accounts}
use bank_managment_system.Persistence.InMemory.Laws.{IsLedger}
use bank_managment_system.Persistence.Wal.{Disk}
use bank_managment_system.Persistence.Wal.Laws.{IsReliable, Lacks}
use bank_managment_system.Concurrency.Processor.{process_impl}
use bank_managment_system.Concurrency.Processor.Local.{local, Local}
use bank_managment_system.Concurrency.Processor.Outcome.{
  missing, refused, thrown, done, process_impl-Ran,
}
use bank_managment_system.Concurrency.Processor.Settlement.{Settles, process_impl-Settles}
use bank_managment_system.Concurrency.Processor.Ids.{Ids, Ids-grow}

Settles-IsLedger :
    (txn : Transaction) (m : Accounts) (r : Throws (Result TransactionRecord)) (m' : Accounts)
    → Settles txn m r m'
    → IsLedger m'
Settles-IsLedger txn m (ok r) m' h = h.0
Settles-IsLedger txn m (throw ex) m' h = absurd h

module _ (disk : Disk) (time_at : ℕ → ℤ) where
  -- Between calls: the accounts are a ledger, the ids in the journal and the reserved ids are all
  -- different and below the next one, and each queued transaction has its reserved id.
  pub record Inv (p : Local disk time_at) : Type 0 where
    pub ledger : IsLedger p.accounts
    pub ids : Ids p.next_id p.wal.entries p.reserved
    pub paired : length p.reserved ≡ length p.queue.items
    pub open_queue : p.queue.closed ≡ false

module _ (disk : Disk) (time_at : ℕ → ℤ) (reliable : IsReliable disk) where
  -- What a call of process_impl leaves alone.
  pub record Kept (p p' : Local disk time_at) : Type 0 where
    pub same_queue : p'.queue ≡ p.queue
    pub same_reserved : p'.reserved ≡ p.reserved
    pub same_next : p'.next_id ≡ p.next_id
    pub kept_ids : Ids p.next_id p'.wal.entries p.reserved

  module _ (txn : Transaction) (id : TransactionId) (p : Local disk time_at)
      (h : Inv disk time_at p) (below : id < p.next_id) (fresh : Lacks id p.wal.entries)
      (apart : All (λ (i : ℕ). id ≢ i) p.reserved) where
    pub process-Kept : Kept p (process_impl (local disk time_at) txn id p).1
    unfolding project_transaction
    process-Kept = elim (process_impl-Ran disk time_at txn id reliable p fresh) [
      | missing absent e ↦
          rw e
            (record { same_queue = refl; same_reserved = refl; same_next = refl; kept_ids = h.ids })
      | refused present invalid e ↦
          rw e
            (record { same_queue = refl; same_reserved = refl; same_next = refl; kept_ids = h.ids })
      | thrown ex l present valid a e ↦ rw e (record {
        same_queue = refl;
        same_reserved = refl;
        same_next = refl;
        kept_ids = Ids-grow _ h.ids below fresh apart;
      })
      | done l present valid a e ↦ rw e (record {
        same_queue = refl;
        same_reserved = refl;
        same_next = refl;
        kept_ids = Ids-grow _ h.ids below fresh apart;
      })
    ]

    pub process-returns :
        (r : Result TransactionRecord) × ((process_impl (local disk time_at) txn id p).0 ≡ ok r)
    process-returns = elim (process_impl-Ran disk time_at txn id reliable p fresh) [
      | missing absent e ↦ rw e (_, refl)
      | refused present invalid e ↦ rw e (_, refl)
      | thrown ex l present valid a e ↦ rw e (_, refl)
      | done l present valid a e ↦ rw e (_, refl)
    ]

    process-IsLedger : IsLedger (process_impl (local disk time_at) txn id p).1.accounts
    process-IsLedger =
        Settles-IsLedger txn p.accounts (process_impl (local disk time_at) txn id p).0 _
          (process_impl-Settles disk time_at txn id p reliable fresh h.ledger)

    pub process-Inv : Inv disk time_at (process_impl (local disk time_at) txn id p).1
    process-Inv =
        let k = process-Kept in
        record {
          ledger = process-IsLedger;
          ids = rw (k.same_next, k.same_reserved) k.kept_ids;
          paired = rw (k.same_reserved, k.same_queue) h.paired;
          open_queue = rw k.same_queue h.open_queue;
        }
