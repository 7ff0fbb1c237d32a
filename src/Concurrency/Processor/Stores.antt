-- ===== src/Concurrency/Processor/Stores.antt =====
-- src/concurrency/TransactionProcessor.cpp over the in-memory repositories: what a restart relies on,
-- kept by every call.
use bank_managment_system.Prelude.{
  ℕ, ◌^◌, ◌<◌, ◌≡◌, refl, ap, sym, subst, ◌∙◌, [], ◌∷◌, All, All-append, arith,
}
use bank_managment_system.Prelude.Int.{ℤ}
use bank_managment_system.Prelude.Exec.{Throws}
use bank_managment_system.Domain.Types.{TransactionId}
use bank_managment_system.Domain.Transaction.{
  Transaction, TransactionRecord, project_transaction, debit_account, credit_account, amount_of,
}
use bank_managment_system.Persistence.Deserializer.RoundTrip.{IsSmall}
use bank_managment_system.Persistence.Deserializer.Lines.{IsReadBack}
use bank_managment_system.Persistence.Parser.Numbers.{IsInt}
use bank_managment_system.Persistence.Wal.{Wal, Disk}
use bank_managment_system.Persistence.Wal.Laws.{IsReliable, Lacks, with_line, trimmed}
use bank_managment_system.Persistence.Wal.Synced.{IsSynced, untrimmed, with_line-IsSynced}
use bank_managment_system.Persistence.Wal.Marked.{with_commit-IsSynced, mark_committed-Synced}
use bank_managment_system.Concurrency.Processor.{process_impl}
use bank_managment_system.Concurrency.Processor.Local.{local, Local}
use bank_managment_system.Concurrency.Processor.Outcome.{
  missing, refused, thrown, done, process_impl-Ran, validated_record, committed_record, marked,
  marks,
}

-- The transactions whose records can be read back from the journal.
pub record IsJournalable (txn : Transaction) : Type 0 where
  pub from_small : IsSmall (debit_account txn)
  pub to_small : IsSmall (credit_account txn)
  pub amount_fits : (amount_of txn).cents < 2 ^ 63

module _ (disk : Disk) (time_at : ℕ → ℤ) where
  -- Ids are above 0, the journal is in step with its file, the stored records have ids below the next one, and what
  -- is queued is read back from the journal.
  pub record Stores (p : Local disk time_at) : Type 0 where
    pub positive : 0 < p.next_id
    pub synced : IsSynced p.wal
    pub stored_below : All (λ (r : TransactionRecord). r.id < p.next_id) p.transactions
    pub queue_writable : All IsJournalable p.queue.items

  validated-IsReadBack :
      (txn : Transaction) (id : TransactionId) (p : Local disk time_at)
      → IsJournalable txn
      → IsInt (time_at p.clock_calls)
      → id < 2 ^ 63
      → IsReadBack (validated_record disk time_at txn id p)
  unfolding project_transaction
  validated-IsReadBack txn id p h time small = record {
    id_fits = omega arith;
    id_readable = λ e. omega arith;
    time_fits = time;
    from_small = h.from_small;
    to_small = h.to_small;
    amount_fits = h.amount_fits;
  }

  -- The id of what is stored.
  committed-id :
      (txn : Transaction) (id : TransactionId) (p : Local disk time_at)
      → (committed_record disk time_at txn id p).id ≡ id
  unfolding project_transaction
  committed-id txn id p = refl

module _ (disk : Disk) (time_at : ℕ → ℤ) (reliable : IsReliable disk)
    (in_range : (n : ℕ) → IsInt (time_at n)) where
  journaled-IsSynced :
      (txn : Transaction) (id : TransactionId) (p : Local disk time_at)
      → IsJournalable txn
      → id < 2 ^ 63
      → IsSynced p.wal
      → IsSynced (with_line (validated_record disk time_at txn id p) (trimmed p.wal))
  journaled-IsSynced txn id p h small synced =
      let r = validated_record disk time_at txn id p in
      subst (λ w. IsSynced (with_line r w)) (sym (untrimmed p.wal synced.no_tail))
        (with_line-IsSynced r p.wal
          (validated-IsReadBack disk time_at txn id p h (in_range p.clock_calls) small) synced)

  marked-IsSynced :
      (txn : Transaction) (id : TransactionId) (p : Local disk time_at)
      → IsJournalable txn
      → id < 2 ^ 63
      → Lacks id p.wal.entries
      → IsSynced p.wal
      → IsSynced (marked disk time_at txn id p)
  marked-IsSynced txn id p h small fresh synced =
      let w = with_line (validated_record disk time_at txn id p) (trimmed p.wal) in
      let step = journaled-IsSynced txn id p h small synced in
      let same =
        ap (λ (r : Throws (Unit {0}) × Wal). r.1)
          (sym (marks disk time_at txn id reliable p fresh)
            ∙ mark_committed-Synced disk reliable id w step) in
      subst IsSynced (sym same) (with_commit-IsSynced id w step)

  -- A call of process_impl keeps the stores fit for a restart.
  pub process-Stores :
      (txn : Transaction) (id : TransactionId) (p : Local disk time_at)
      → IsJournalable txn
      → id < 2 ^ 63
      → id < p.next_id
      → Lacks id p.wal.entries
      → Stores disk time_at p
      → Stores disk time_at (process_impl (local disk time_at) txn id p).1
  process-Stores txn id p h small below fresh s =
      elim (process_impl-Ran disk time_at txn id reliable p fresh) [
        | missing absent e ↦ rw e (record {
          positive = s.positive;
          synced = s.synced;
          stored_below = s.stored_below;
          queue_writable = s.queue_writable;
        })
        | refused present invalid e ↦ rw e (record {
          positive = s.positive;
          synced = s.synced;
          stored_below = s.stored_below;
          queue_writable = s.queue_writable;
        })
        | thrown ex l present valid a e ↦ rw e (record {
          positive = s.positive;
          synced = journaled-IsSynced txn id p h small s.synced;
          stored_below = s.stored_below;
          queue_writable = s.queue_writable;
        })
        | done l present valid a e ↦ rw e (record {
          positive = s.positive;
          synced = marked-IsSynced txn id p h small fresh s.synced;
          stored_below =
              All-append (λ (r : TransactionRecord). r.id < p.next_id) p.transactions
                (committed_record disk time_at txn id p ∷ []) s.stored_below
                (rw (committed-id disk time_at txn id p) below, tt);
          queue_writable = s.queue_writable;
        })
      ]
