-- ===== src/Concurrency/Processor/Settlement.antt =====
-- src/concurrency/TransactionProcessor.cpp over the in-memory repositories: what process_impl does to
-- the money.
use bank_managment_system.Prelude.{
  ℕ, Distinct, ◌+◌, ◌≡◌, ◌≢◌, refl, sym, ap, subst, ◌∙◌, Bool, true, false, Option, none, some,
  List, All, is_empty, arith, ◌↔◌,
}
use bank_managment_system.Prelude.Int.{ℤ}
use bank_managment_system.Prelude.Exec.{Throws, ok, throw}
use bank_managment_system.Prelude.OrderedMap.{lookup, values}
use bank_managment_system.Core.{Result, is_ok}
use bank_managment_system.Domain.Types.{AccountId, TransactionId}
use bank_managment_system.Domain.Account.{Account}
use bank_managment_system.Domain.Account.Laws.{Fits}
use bank_managment_system.Domain.Transaction.{Transaction, TransactionRecord}
use bank_managment_system.Domain.Operations.{
  involved_accounts, contains, find_account, validate, apply,
}
use bank_managment_system.Domain.Operations.Find.{ids, total}
use bank_managment_system.Domain.Operations.Effect.{inflow, outflow, CreditFits, apply-conserves}
use bank_managment_system.Domain.Operations.Exact.{apply-ok_iff, apply-Fits}
use bank_managment_system.Persistence.InMemory.{Accounts}
use bank_managment_system.Persistence.InMemory.Laws.{
  IsLedger, saved, saved-IsLedger, total-saved, lookup-saved, lookup-saved_ne,
}
use bank_managment_system.Persistence.Wal.{Disk}
use bank_managment_system.Persistence.Wal.Laws.{IsReliable, Lacks}
use bank_managment_system.Concurrency.Processor.{sort, process_impl}
use bank_managment_system.Concurrency.Processor.Local.{local, Local, found_in}
use bank_managment_system.Concurrency.Processor.Outcome.{
  missing, refused, thrown, done, process_impl-Ran,
}
use bank_managment_system.Concurrency.Processor.Found.{
  AllFound, found_in-AllFound, sort-Distinct, sort-apart, find-Loaded,
}

-- The sum of all balances.
abbrev pub funds : Accounts → ℕ
funds m = total (values m)

-- What a finished call has done to the accounts, by whether it carries a value: all of the
-- transaction's cents have moved, or nothing has changed. It never throws.
abbrev pub MovesAll : Transaction → Accounts → Option TransactionRecord → Accounts → Type 0
MovesAll txn m none m' = m' ≡ m
MovesAll txn m (some _) m' = funds m' + outflow txn ≡ funds m + inflow txn

abbrev pub Settles : Transaction → Accounts → Throws (Result TransactionRecord) → Accounts → Type 0
Settles txn m (throw _) m' = ⊥
Settles txn m (ok r) m' = IsLedger m' × MovesAll txn m r.result_value m'

module _ (disk : Disk) (time_at : ℕ → ℤ) (txn : Transaction) (id : TransactionId) where
  -- The accounts that are found, and what apply leaves of them.
  abbrev pub candidates : Accounts → List Account
  candidates m = (found_in m (sort (involved_accounts txn))).0

  module _ (m : Accounts) (ledger : IsLedger m)
      (present : is_empty (found_in m (sort (involved_accounts txn))).1 ≡ true) where
    all_found : AllFound m ledger (sort (involved_accounts txn)) (candidates m)
    all_found = found_in-AllFound m ledger (sort (involved_accounts txn)) present

    fits_iff :
        ((apply txn (candidates m)).0 ≡ ok tt)
        ↔ ((validate txn (candidates m) ≡ true) × CreditFits txn (candidates m))
    fits_iff = apply-ok_iff txn (candidates m) all_found.fits

    module _ (l : List Account) (h : apply txn (candidates m) ≡ (ok tt, l)) where
      returned : (apply txn (candidates m)).0 ≡ ok tt
      returned = ap (λ (r : Throws (Unit {0}) × List Account). r.0) h

      left : (apply txn (candidates m)).1 ≡ l
      left = ap (λ (r : Throws (Unit {0}) × List Account). r.1) h

      same_ids : ids l ≡ ids (candidates m)
      same_ids =
          subst (λ k. ids k ≡ ids (candidates m)) left
            (apply-conserves txn (candidates m) returned).1

      saved_settles :
          IsLedger (saved l m) × (funds (saved l m) + outflow txn ≡ funds m + inflow txn)
      saved_settles = (
        saved-IsLedger l m (subst (All Fits) left (apply-Fits txn (candidates m) all_found.fits))
            ledger,
        omega (
          arith,
          subst (λ k. total k + outflow txn ≡ total (candidates m) + inflow txn) left
              (apply-conserves txn (candidates m) returned).0,
          total-saved (candidates m) l m same_ids
              (subst Distinct (sym all_found.same_ids) (sort-Distinct txn)) ledger.sorted
              all_found.loaded,
        ),
      )

      saved_others :
          (j : AccountId)
          → contains (involved_accounts txn) j ≡ false
          → lookup j (saved l m) ≡ lookup j m
      saved_others j away = lookup-saved_ne j l m (
          subst (All (λ (y : ℕ). j ≢ y)) (sym (same_ids ∙ all_found.same_ids))
            (sort-apart (involved_accounts txn) j away))

      -- What is saved of an account that the transaction names is what apply left of it.
      pub lookup-saved_named :
          (j : AccountId)
          → contains (sort (involved_accounts txn)) j ≡ true
          → lookup j (saved l m) ≡ find_account (apply txn (candidates m)).1 j
      lookup-saved_named j named =
          let ids_left = same_ids ∙ all_found.same_ids in
          let distinct = subst Distinct (sym ids_left) (sort-Distinct txn) in
          sym (
            ap (λ k. find_account k j) left
            ∙ find-Loaded (saved l m) l j (lookup-saved l m distinct)
                (subst (λ k. contains k j ≡ true) (sym ids_left) named))

  -- Over a ledger and with an id that the journal does not hold yet, process_impl never throws; it
  -- keeps the ledger, and it either succeeds and moves exactly the transaction's cents (a transfer
  -- conserves the sum of all balances), or fails and leaves every account as it was.
  pub process_impl-Settles :
      (p : Local disk time_at)
      → IsReliable disk
      → Lacks id p.wal.entries
      → IsLedger p.accounts
      → let (r, p') = process_impl (local disk time_at) txn id p in
        Settles txn p.accounts r p'.accounts
  process_impl-Settles p reliable fresh ledger =
      elim (process_impl-Ran disk time_at txn id reliable p fresh) [
        | missing absent e ↦ rw e (ledger, refl)
        | refused present invalid e ↦ rw e (ledger, refl)
        | thrown ex l present valid a e ↦ rw e (ledger, refl)
        | done l present valid a e ↦ rw e (saved_settles p.accounts ledger present l a)
      ]

  -- Exactly when a transaction goes through: all its accounts are there, validate accepts it, and
  -- the credited balance stays within int64_t.
  abbrev pub GoesThrough : Accounts → Type 0
  GoesThrough m =
      let found = found_in m (sort (involved_accounts txn)) in
      (is_empty found.1 ≡ true) × (validate txn found.0 ≡ true) × CreditFits txn found.0

  -- Whether a call returned a success.
  abbrev pub succeeded : Throws (Result TransactionRecord) → Bool
  succeeded (throw _) = false
  succeeded (ok r) = is_ok r

  -- process_impl succeeds exactly if the transaction goes through: every account that it names is
  -- there, validate accepts it, and the credited balance stays within int64_t.
  pub process_impl-success_iff :
      (p : Local disk time_at)
      → IsReliable disk
      → Lacks id p.wal.entries
      → IsLedger p.accounts
      → (succeeded (process_impl (local disk time_at) txn id p).0 ≡ true) ↔ GoesThrough p.accounts
  process_impl-success_iff p reliable fresh ledger =
      elim (process_impl-Ran disk time_at txn id reliable p fresh) [
        | missing absent e ↦ rw e (λ h. cc, λ h. cc (h.0))
        | refused present invalid e ↦ rw e (λ h. cc, λ h. cc (h.1))
        | thrown ex l present valid a e ↦ rw e (
          λ h. cc,
          λ h. cc (
            ap (λ (r : Throws (Unit {0}) × List Account). r.0) a,
            (fits_iff p.accounts ledger present).1 (h.1, h.2),
          ),
        )
        | done l present valid a e ↦ rw e (
          (λ h. (
            present,
            valid,
            ((fits_iff p.accounts ledger present).0 (returned p.accounts ledger present l a)).1,
          )),
          λ h. refl,
        )
      ]

  -- An account that the transaction does not name is untouched, however the call ends.
  pub process_impl-others :
      (p : Local disk time_at) (j : AccountId)
      → IsReliable disk
      → Lacks id p.wal.entries
      → IsLedger p.accounts
      → contains (involved_accounts txn) j ≡ false
      → lookup j (process_impl (local disk time_at) txn id p).1.accounts ≡ lookup j p.accounts
  process_impl-others p j reliable fresh ledger away =
      elim (process_impl-Ran disk time_at txn id reliable p fresh) [
        | missing absent e ↦ rw e refl
        | refused present invalid e ↦ rw e refl
        | thrown ex l present valid a e ↦ rw e refl
        | done l present valid a e ↦ rw e (saved_others p.accounts ledger present l a j away)
      ]
