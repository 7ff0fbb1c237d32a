-- ===== src/Concurrency/Processor/Trail.antt =====
-- src/concurrency/TransactionProcessor.cpp over the in-memory repositories: what process_impl leaves in
-- the journal, in the transaction repository and in the audit trail.
use bank_managment_system.Prelude.{
  ℕ, ◌≡◌, refl, ◌⊎◌, inl, inr, Option, none, some, List, [], ◌∷◌, ◌++◌,
}
use bank_managment_system.Prelude.Int.{ℤ}
use bank_managment_system.Prelude.Text.{Bytes, text}
use bank_managment_system.Prelude.Exec.{Throws, ok, throw}
use bank_managment_system.Core.{Result}
use bank_managment_system.Domain.Types.{TransactionId, TransactionState}
use bank_managment_system.Domain.Transaction.{
  Transaction, TransactionRecord, project_transaction, type_of, debit_account, credit_account,
  amount_of, describe,
}
use bank_managment_system.Domain.AuditEntry.{AuditEntry}
use bank_managment_system.Persistence.Wal.{Disk, Entry}
use bank_managment_system.Persistence.Wal.Laws.{IsReliable, Lacks}
use bank_managment_system.Concurrency.Processor.{process_impl}
use bank_managment_system.Concurrency.Processor.Local.{local, Local}
use bank_managment_system.Concurrency.Processor.Outcome.{
  missing, refused, thrown, done, process_impl-Ran,
}

-- A list with one more element at its end.
abbrev pub Grows : {A : Type 0} → (A → Type 0) → List A → List A → Type 0
Grows {A} P before after = (x : A) × (after ≡ before ++ x ∷ []) × P x

-- The audit entry of one action.
abbrev pub Reports : Bytes → Bytes → AuditEntry → Type 0
Reports action details e = (e.action ≡ action) × (e.details ≡ details) × (e.actor_id ≡ 0)

abbrev pub HasState : TransactionId → TransactionState → Entry → Type 0
HasState id state e = (e.id ≡ id) × (e.state ≡ state)

module _ (disk : Disk) (time_at : ℕ → ℤ) (txn : Transaction) (id : TransactionId) where
  -- The record of a transaction that went through.
  pub record Describes (r : TransactionRecord) : Type 0 where
    pub its_id : r.id ≡ id
    pub its_state : r.state ≡ TransactionState.committed
    pub its_type : r.type ≡ type_of txn
    pub its_from : r.from ≡ debit_account txn
    pub its_to : r.to ≡ credit_account txn
    pub its_amount : r.amount ≡ amount_of txn

  abbrev pub Traced :
      Bytes → Option TransactionRecord → Local disk time_at → Local disk time_at → Type 0
  Traced error none p p' =
      (p'.transactions ≡ p.transactions)
      × Grows (Reports (text "txn.failed") error) p.audit p'.audit
      × ((p'.wal.entries ≡ p.wal.entries)
          ⊎ Grows (HasState id TransactionState.validated) p.wal.entries p'.wal.entries)
  Traced error (some r) p p' =
      Describes r
      × (p'.transactions ≡ p.transactions ++ r ∷ [])
      × Grows (Reports (text "txn.completed") (describe txn)) p.audit p'.audit
      × Grows (HasState id TransactionState.committed) p.wal.entries p'.wal.entries

  abbrev pub Traces :
      Local disk time_at → Throws (Result TransactionRecord) × Local disk time_at → Type 0
  Traces p (throw _, p') = ⊥
  Traces p (ok r, p') = Traced r.error r.result_value p p'

  -- With an id that the journal does not hold yet, each call of process_impl adds exactly one audit
  -- entry. A success returns the committed record of the transaction under that id, stores it, and
  -- adds one committed journal entry; a failure stores no record, reports its error in the audit
  -- entry, and adds at most an entry that is only validated to the journal.
  pub process_impl-Traces :
      (p : Local disk time_at)
      → IsReliable disk
      → Lacks id p.wal.entries
      → Traces p (process_impl (local disk time_at) txn id p)
  unfolding project_transaction
  process_impl-Traces p reliable fresh =
      elim (process_impl-Ran disk time_at txn id reliable p fresh) [
        | missing absent e ↦ rw e (refl, (_, refl, (refl, refl, refl)), inl refl)
        | refused present invalid e ↦ rw e (refl, (_, refl, (refl, refl, refl)), inl refl)
        | thrown ex l present valid a e ↦
            rw e (refl, (_, refl, (refl, refl, refl)), inr (_, refl, (refl, refl)))
        | done l present valid a e ↦ rw e (
          record {
            its_id = refl;
            its_state = refl;
            its_type = refl;
            its_from = refl;
            its_to = refl;
            its_amount = refl;
          },
          refl,
          (_, refl, (refl, refl, refl)),
          (_, refl, (refl, refl)),
        )
      ]
