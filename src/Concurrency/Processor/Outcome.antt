-- ===== src/Concurrency/Processor/Outcome.antt =====
-- src/concurrency/TransactionProcessor.cpp over the in-memory repositories and a file system whose
-- calls succeed: the four ways in which process_impl ends, with the state that each leaves.
use bank_managment_system.Prelude.{
  ℕ, ◌+◌, ◌≡◌, refl, ◌∙◌, true, false, List, [], ◌∷◌, ◌++◌, set, is_empty, arith, Bool-cases, inl,
  inr,
}
use bank_managment_system.Prelude.Int.{ℤ}
use bank_managment_system.Prelude.Text.{Bytes, text}
use bank_managment_system.Prelude.Exec.{Exception, Throws, ok, throw, try_catch, try-ok, try-throw}
use bank_managment_system.Core.{Result, success, failure}
use bank_managment_system.Domain.Types.{TransactionId, TransactionState}
use bank_managment_system.Domain.Account.{Account}
use bank_managment_system.Domain.Transaction.{
  Transaction, TransactionRecord, project_transaction, describe, debit_account, credit_account,
}
use bank_managment_system.Domain.Operations.{involved_accounts, validate, apply}
use bank_managment_system.Persistence.InMemory.Laws.{saved}
use bank_managment_system.Persistence.Wal.{Disk, Wal, Entry, mark_committed}
use bank_managment_system.Persistence.Wal.Frame.{state_field_pos, state_byte}
use bank_managment_system.Persistence.Wal.Laws.{
  IsReliable, trimmed, with_line, entry_of, Lacks, append_lem, mark_committed_lem,
}
use bank_managment_system.Concurrency.Processor.{
  sort, execute, execute_loaded, attempt, report, process_impl, message_of,
}
use bank_managment_system.Concurrency.Processor.Local.{
  local, Local, audited, found_in, append_audit_lem, fail_lem, load_lem, save_all_lem,
}

module _ (disk : Disk) (time_at : ℕ → ℤ) (txn : Transaction) (id : TransactionId) where
  -- The record that goes to the journal before the accounts change.
  abbrev pub validated_record : Local disk time_at → TransactionRecord
  validated_record p = record (project_transaction (time_at p.clock_calls) id txn) {
    state = TransactionState.validated;
  }

  abbrev pub committed_record : Local disk time_at → TransactionRecord
  committed_record p = record (validated_record p) { state = TransactionState.committed }

  -- The intent stands in the journal, and nothing else has happened.
  abbrev pub journaled : Local disk time_at → Local disk time_at
  journaled p = record p {
    wal = with_line (validated_record p) (trimmed p.wal);
    clock_calls = p.clock_calls + 1;
  }

  abbrev pub intent : Local disk time_at → Entry
  intent p = entry_of (validated_record p) (trimmed p.wal).next_offset

  -- The journal after the commit marker.
  abbrev pub marked : Local disk time_at → Wal
  marked p = record (with_line (validated_record p) (trimmed p.wal)) {
    file =
        set (with_line (validated_record p) (trimmed p.wal)).file
          ((intent p).offset + state_field_pos) (state_byte TransactionState.committed);
    entries = p.wal.entries ++ record (intent p) { state = TransactionState.committed } ∷ [];
  }

  -- The accounts `l` are saved, and the record is committed everywhere.
  abbrev pub completed : List Account → Local disk time_at → Local disk time_at
  completed l p = audited disk time_at 0 (text "txn.completed") (describe txn) (record p {
    accounts = saved l p.accounts;
    transactions = p.transactions ++ committed_record p ∷ [];
    wal = marked p;
    clock_calls = p.clock_calls + 1;
  })

  module _ (reliable : IsReliable disk) (p : Local disk time_at) where
    execute_throws :
        (l l' : List Account) (ex : Exception)
        → apply txn l ≡ (throw ex, l')
        → execute (local disk time_at) txn id l p ≡ (throw ex, journaled p)
    unfolding execute
    execute_throws l l' ex h = rw (append_lem disk reliable) (rw h refl)

    pub marks :
        Lacks id p.wal.entries
        → mark_committed disk id (with_line (validated_record p) (trimmed p.wal))
          ≡ (ok tt, marked p)
    unfolding project_transaction
    marks fresh =
        mark_committed_lem disk reliable id (with_line (validated_record p) (trimmed p.wal))
          p.wal.entries (intent p) refl fresh refl refl

    execute_completes :
        (l l' : List Account)
        → Lacks id p.wal.entries
        → apply txn l ≡ (ok tt, l')
        → execute (local disk time_at) txn id l p
          ≡ (ok (success (committed_record p)), completed l' p)
    unfolding execute
    execute_completes l l' fresh h =
        rw (append_lem disk reliable)
          (rw h (rw save_all_lem (rw (marks fresh) (rw append_audit_lem refl))))

  -- What the loading loop finds of the accounts involved.
  abbrev pub found : Local disk time_at → List Account × Bytes
  found p = found_in p.accounts (sort (involved_accounts txn))

  abbrev pub refusal : Bytes
  refusal = text "validation failed: " ++ describe txn

  -- The ways in which process_impl ends: an account is missing, the transaction is refused, the
  -- application throws, or all is done.
  pub data Ran (p : Local disk time_at)
      (out : Throws (Result TransactionRecord) × Local disk time_at) : Type 0 where
    missing :
        is_empty (found p).1 ≡ false
        → out ≡ (ok (failure (found p).1), audited disk time_at 0 (text "txn.failed") (found p).1 p)
        → Ran p out
    refused :
        is_empty (found p).1 ≡ true
        → validate txn (found p).0 ≡ false
        → out ≡ (ok (failure refusal), audited disk time_at 0 (text "txn.failed") refusal p)
        → Ran p out
    thrown :
        (ex : Exception) (l : List Account)
        → is_empty (found p).1 ≡ true
        → validate txn (found p).0 ≡ true
        → apply txn (found p).0 ≡ (throw ex, l)
        → out ≡ (
          ok (failure (message_of ex)),
          audited disk time_at 0 (text "txn.failed") (message_of ex) (journaled p),
        )
        → Ran p out
    done :
        (l : List Account)
        → is_empty (found p).1 ≡ true
        → validate txn (found p).0 ≡ true
        → apply txn (found p).0 ≡ (ok tt, l)
        → out ≡ (ok (success (committed_record p)), completed l p)
        → Ran p out

  involved_some : is_empty (involved_accounts txn) ≡ false
  unfolding involved_accounts debit_account credit_account
  involved_some = involved_by txn
    where
      involved_by : (t : Transaction) → is_empty (involved_accounts t) ≡ false
      involved_by (Transaction.deposit a m) = refl
      involved_by (Transaction.withdraw a m) = refl
      involved_by (Transaction.transfer f t m) = ground arith

  attempt_lem :
      (p : Local disk time_at)
      → attempt (local disk time_at) txn id p
        ≡ execute_loaded (local disk time_at) txn id (found p) p
  unfolding attempt
  attempt_lem p = rw load_lem

  process_lem :
      (p : Local disk time_at)
      → process_impl (local disk time_at) txn id p
        ≡ try_catch (attempt (local disk time_at) txn id) (report (local disk time_at)) p
  unfolding process_impl
  process_lem p = rw involved_some

  module _ (p : Local disk time_at) where
    missing_fails :
        is_empty (found p).1 ≡ false
        → execute_loaded (local disk time_at) txn id (found p) p
          ≡ (ok (failure (found p).1), audited disk time_at 0 (text "txn.failed") (found p).1 p)
    unfolding execute_loaded
    missing_fails absent = rw absent (fail_lem disk time_at (found p).1 (found p).1 p)

    refused_fails :
        is_empty (found p).1 ≡ true
        → validate txn (found p).0 ≡ false
        → execute_loaded (local disk time_at) txn id (found p) p
          ≡ (ok (failure refusal), audited disk time_at 0 (text "txn.failed") refusal p)
    unfolding execute_loaded
    refused_fails present invalid = rw (present, invalid) (fail_lem disk time_at refusal refusal p)

    valid_executes :
        is_empty (found p).1 ≡ true
        → validate txn (found p).0 ≡ true
        → execute_loaded (local disk time_at) txn id (found p) p
          ≡ execute (local disk time_at) txn id (found p).0 p
    unfolding execute_loaded
    valid_executes present valid = rw (present, valid)

    -- The try block returns, and so does process_impl.
    returns :
        (r : Result TransactionRecord) (p' : Local disk time_at)
        → execute_loaded (local disk time_at) txn id (found p) p ≡ (ok r, p')
        → process_impl (local disk time_at) txn id p ≡ (ok r, p')
    returns r p' e =
        process_lem p
        ∙ try-ok (attempt (local disk time_at) txn id) (report (local disk time_at)) p p' r
            (attempt_lem p ∙ e)

    -- The try block throws, and the catch block returns.
    catches :
        (ex : Exception) (p' : Local disk time_at)
        → execute_loaded (local disk time_at) txn id (found p) p ≡ (throw ex, p')
        → process_impl (local disk time_at) txn id p ≡ (
          ok (failure (message_of ex)),
          audited disk time_at 0 (text "txn.failed") (message_of ex) p',
        )
    unfolding report
    catches ex p' e =
        process_lem p
        ∙ try-throw (attempt (local disk time_at) txn id) (report (local disk time_at)) p p' ex
            (attempt_lem p ∙ e)
        ∙ fail_lem disk time_at (message_of ex) (message_of ex) p'

  module _ (reliable : IsReliable disk) (p : Local disk time_at)
      (fresh : Lacks id p.wal.entries) where
    execution :
        is_empty (found p).1 ≡ true
        → validate txn (found p).0 ≡ true
        → (r : Throws (Unit {0})) (l : List Account) → apply txn (found p).0 ≡ (r, l)
        → Ran p (process_impl (local disk time_at) txn id p)
    execution present valid (ok tt) l h = done l present valid h (
        returns p (success (committed_record p)) (completed l p)
          (valid_executes p present valid ∙ execute_completes reliable p (found p).0 l fresh h))
    execution present valid (throw ex) l h = thrown ex l present valid h (
        catches p ex (journaled p)
          (valid_executes p present valid ∙ execute_throws reliable p (found p).0 l ex h))

    -- Each call of process_impl ends in one of the ways of `Ran`.
    pub process_impl-Ran : Ran p (process_impl (local disk time_at) txn id p)
    process_impl-Ran = elim (Bool-cases (is_empty (found p).1)) [
      | inl present ↦ elim (Bool-cases (validate txn (found p).0)) [
        | inl valid ↦
            execution present valid (apply txn (found p).0).0 (apply txn (found p).0).1 refl
        | inr invalid ↦
            refused present invalid
              (returns p (failure refusal) _ (refused_fails p present invalid))
      ]
      | inr absent ↦ missing absent (returns p (failure (found p).1) _ (missing_fails p absent))
    ]
