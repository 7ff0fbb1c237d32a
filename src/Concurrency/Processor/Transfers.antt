-- ===== src/Concurrency/Processor/Transfers.antt =====
-- src/concurrency/TransactionProcessor.cpp over the in-memory repositories: a transfer from end to end,
-- when it goes through and when its credit overflows.
use bank_managment_system.Prelude.{ℕ, ◌+◌, ◌≤◌, ◌<◌, ◌≡◌, refl, ap, ◌∙◌, some, List, ◌∷◌, ◌++◌, []}
use bank_managment_system.Prelude.Int.{ℤ}
use bank_managment_system.Prelude.Text.{text}
use bank_managment_system.Prelude.Exec.{Exception, Throws, ok, overflow_error}
use bank_managment_system.Prelude.OrderedMap.{lookup}
use bank_managment_system.Core.{Result, success, failure}
use bank_managment_system.Domain.Types.{AccountId, TransactionId}
use bank_managment_system.Domain.Money.{Money, int64_max}
use bank_managment_system.Domain.Account.{Account}
use bank_managment_system.Domain.Account.Laws.{credited, debited}
use bank_managment_system.Domain.Transaction.{Transaction, TransactionRecord}
use bank_managment_system.Domain.Operations.{involved_accounts}
use bank_managment_system.Domain.Operations.Effect.{MayTransfer, MayTransfer-valid}
use bank_managment_system.Domain.Operations.Exact.{apply_transfers, apply-transfer_overflow}
use bank_managment_system.Persistence.InMemory.Laws.{IsLedger}
use bank_managment_system.Persistence.Wal.{Disk}
use bank_managment_system.Persistence.Wal.Laws.{IsReliable, Lacks}
use bank_managment_system.Concurrency.Processor.{sort, message_of, process_impl}
use bank_managment_system.Concurrency.Processor.Local.{local, Local}
use bank_managment_system.Concurrency.Processor.Outcome.{
  committed_record, intent, missing, refused, thrown, done, process_impl-Ran,
}
use bank_managment_system.Concurrency.Processor.Found.{
  found_both, transfer-Finds, found_in-AllFound, involved_from, involved_to,
}
use bank_managment_system.Concurrency.Processor.Settlement.{candidates, lookup-saved_named}

abbrev overflow : Exception
overflow = overflow_error (text "Money: addition overflow")

reported :
    (ex : Exception)
    → ex ≡ overflow
    → ◌≡◌ {A = Throws (Result TransactionRecord)}
        (ok (failure (message_of ex)))
        (ok (failure (text "Money: addition overflow")))
unfolding text
reported ex e = ap (λ (x : Exception). ok (failure (message_of x))) e

module _ (disk : Disk) (time_at : ℕ → ℤ) (id : TransactionId) (from to : AccountId)
    (m : Money) where
  -- A transfer between two active accounts of the ledger, of a positive amount that the source
  -- covers and the target has room for, succeeds with the committed record. Afterwards the source
  -- has the amount less, the target has it more, and both versions have been counted up.
  pub process_transfer :
      (p : Local disk time_at) (a b : Account)
      → IsReliable disk
      → Lacks id p.wal.entries
      → IsLedger p.accounts
      → lookup from p.accounts ≡ some a
      → lookup to p.accounts ≡ some b
      → MayTransfer from to m a b
      → b.balance.cents + m.cents ≤ int64_max
      → let txn = Transaction.transfer from to m in
        let (r, p') = process_impl (local disk time_at) txn id p in
        (r ≡ ok (success (committed_record disk time_at txn id p)))
        × (lookup from p'.accounts ≡ some (debited m a))
        × (lookup to p'.accounts ≡ some (credited m b))
  process_transfer p a b reliable fresh ledger ea eb may fits =
      let txn = Transaction.transfer from to m in
      let loaded = candidates disk time_at txn id p.accounts in
      let both = found_both p.accounts from to m a b ea eb in
      let finds = transfer-Finds p.accounts from to m a b ledger ea eb in
      let valid_now = MayTransfer-valid from to m loaded a b finds.from_found finds.to_found may in
      let effect =
        apply_transfers from to m loaded a b valid_now finds.from_found finds.to_found fits in
      elim (process_impl-Ran disk time_at txn id reliable p fresh) [
        | missing absent e ↦ absurd (cc (absent, both))
        | refused present invalid e ↦ absurd (cc (invalid, valid_now))
        | thrown ex l present valid h e ↦
            absurd (cc (ap (λ (r : Throws (Unit {0}) × List Account). r.0) h, effect.0))
        | done l present valid h e ↦
            let there = lookup-saved_named disk time_at txn id p.accounts ledger present l h in
            rw e (
              refl,
              there from (involved_from from to m) ∙ effect.1,
              there to (involved_to from to m) ∙ effect.2,
            )
      ]

  -- If the target has no room for the amount, the transfer fails with the overflow message and
  -- leaves all accounts and all stored records as they were; but an entry for it, validated and
  -- never committed, stays in the journal.
  pub process_transfer_overflow :
      (p : Local disk time_at) (a b : Account)
      → IsReliable disk
      → Lacks id p.wal.entries
      → IsLedger p.accounts
      → lookup from p.accounts ≡ some a
      → lookup to p.accounts ≡ some b
      → MayTransfer from to m a b
      → int64_max < b.balance.cents + m.cents
      → let txn = Transaction.transfer from to m in
        let (r, p') = process_impl (local disk time_at) txn id p in
        (r ≡ ok (failure (text "Money: addition overflow")))
        × (p'.accounts ≡ p.accounts)
        × (p'.transactions ≡ p.transactions)
        × (p'.wal.entries ≡ p.wal.entries ++ intent disk time_at txn id p ∷ [])
  process_transfer_overflow p a b reliable fresh ledger ea eb may over =
      let txn = Transaction.transfer from to m in
      let loaded = candidates disk time_at txn id p.accounts in
      let both = found_both p.accounts from to m a b ea eb in
      let finds = transfer-Finds p.accounts from to m a b ledger ea eb in
      let all = found_in-AllFound p.accounts ledger (sort (involved_accounts txn)) both in
      let valid_now = MayTransfer-valid from to m loaded a b finds.from_found finds.to_found may in
      let effect =
        apply-transfer_overflow from to m loaded a b all.fits valid_now finds.from_found
          finds.to_found over in
      elim (process_impl-Ran disk time_at txn id reliable p fresh) [
        | missing absent e ↦ absurd (cc (absent, both))
        | refused present invalid e ↦ absurd (cc (invalid, valid_now))
        | thrown ex l present valid h e ↦ rw e (
          reported ex (cc (ap (λ (r : Throws (Unit {0}) × List Account). r.0) h, effect.0)),
          refl,
          refl,
          refl,
        )
        | done l present valid h e ↦
            absurd (cc (ap (λ (r : Throws (Unit {0}) × List Account). r.0) h, effect.0))
      ]
