-- ===== src/Services/Banking/Freeze.antt =====
-- src/services/BankingService.cpp over the in-memory repositories: freeze, unfreeze, and what a frozen
-- account refuses.
use bank_managment_system.Prelude.{
  ℕ, ◌==◌, ◌≡◌, ◌≢◌, refl, sym, ap, subst, ◌∙◌, true, false, some, none, Option, is_some, inl, inr,
  Bool-cases, arith,
}
use bank_managment_system.Prelude.Int.{ℤ}
use bank_managment_system.Prelude.Exec.{ok, Throws, throw}
use bank_managment_system.Prelude.OrderedMap.{
  lookup, insert_or_assign, lookup-insert_self, lookup-insert_ne,
}
use bank_managment_system.Core.{Result, VoidResult, void_success}
use bank_managment_system.Domain.Types.{AccountId, AccountStatus, TransactionId}
use bank_managment_system.Domain.Account.{Account, bump, set_status}
use bank_managment_system.Domain.Transaction.{
  Transaction, TransactionRecord, debit_account, credit_account,
}
use bank_managment_system.Domain.Operations.{involved_accounts, contains}
use bank_managment_system.Persistence.InMemory.{Accounts}
use bank_managment_system.Persistence.InMemory.Laws.{IsLedger, save-IsLedger}
use bank_managment_system.Persistence.Wal.{Wal, Disk}
use bank_managment_system.Persistence.Wal.Laws.{IsReliable, Lacks}
use bank_managment_system.Concurrency.Processor.{process_impl}
use bank_managment_system.Concurrency.Processor.Local.{local}
use bank_managment_system.Concurrency.Processor.Found.{lookup-id, lookup-Fits}
use bank_managment_system.Concurrency.Processor.Settlement.{
  succeeded, Settles, MovesAll, process_impl-Settles,
}
use bank_managment_system.Concurrency.Processor.Permits.{Holds, Permits, process_impl-Permits_iff}
use bank_managment_system.Services.Audit
use bank_managment_system.Services.Banking.{Bank, freeze, freeze_found, unfreeze, unfreeze_found}

-- The account after a change of status.
abbrev pub with_status : AccountStatus → Account → Account
with_status s a = record a { status = s; version = bump a.version }

-- Every account that a permitted transaction names is held and active.
named-Holds :
    (m : Accounts) (txn : Transaction) (j : AccountId)
    → Permits m txn
    → contains (involved_accounts txn) j ≡ true
    → Holds m j
unfolding involved_accounts debit_account credit_account
named-Holds m (Transaction.deposit id amount) j h named =
    let same : id ≡ j = ground arith in subst (Holds m) same h.1.its
named-Holds m (Transaction.withdraw id amount) j h named =
    let same : id ≡ j = ground arith in subst (Holds m) same h.1.its
named-Holds m (Transaction.transfer from to amount) j h named = elim (Bool-cases (from == j)) [
  | inl first ↦ let same : from ≡ j = ground arith in subst (Holds m) same h.2.its
  | inr other ↦ let same : to ≡ j = ground arith in subst (Holds m) same h.3.its
]

module _ (disk : Disk) (time_at : ℕ → ℤ) where
  abbrev LocalBank : Type 0
  LocalBank = Bank (local disk time_at)

  -- The state after a status change with its audit entry.
  freeze_active :
      (b : LocalBank) (id : AccountId) (a : Account)
      → lookup id b.processor.accounts ≡ some a
      → a.status ≡ AccountStatus.active
      → ((freeze (local disk time_at) id b).0 ≡ ok void_success)
        × ((freeze (local disk time_at) id b).1.processor.accounts
            ≡ insert_or_assign a.id (with_status AccountStatus.frozen a) b.processor.accounts)
        × ((freeze (local disk time_at) id b).1.processor.wal ≡ b.processor.wal)
  unfolding freeze freeze_found set_status Audit.append
  freeze_active b id a found active = rw (found, active) (refl, refl, refl)

  freeze_frozen :
      (b : LocalBank) (id : AccountId) (a : Account)
      → lookup id b.processor.accounts ≡ some a
      → a.status ≡ AccountStatus.frozen
      → freeze (local disk time_at) id b ≡ (ok void_success, b)
  unfolding freeze freeze_found
  freeze_frozen b id a found frozen = rw (found, frozen) refl

  unfreeze_frozen :
      (b : LocalBank) (id : AccountId) (a : Account)
      → lookup id b.processor.accounts ≡ some a
      → a.status ≡ AccountStatus.frozen
      → ((unfreeze (local disk time_at) id b).0 ≡ ok void_success)
        × ((unfreeze (local disk time_at) id b).1.processor.accounts
            ≡ insert_or_assign a.id (with_status AccountStatus.active a) b.processor.accounts)
  unfolding unfreeze unfreeze_found set_status Audit.append
  unfreeze_frozen b id a found frozen = rw (found, frozen) (refl, refl)

  -- What freeze leaves of an account that is not closed.
  record Frozen (b : LocalBank) (id : AccountId) (out : Throws VoidResult × LocalBank)
      : Type 0 where
    returned : out.0 ≡ ok void_success
    account : Account
    found : lookup id out.1.processor.accounts ≡ some account
    frozen : account.status ≡ AccountStatus.frozen
    ledger : IsLedger out.1.processor.accounts
    same_wal : out.1.processor.wal ≡ b.processor.wal

  freeze-Frozen :
      (b : LocalBank) (id : AccountId) (a : Account)
      → IsLedger b.processor.accounts
      → lookup id b.processor.accounts ≡ some a
      → a.status ≢ AccountStatus.closed
      → Frozen b id (freeze (local disk time_at) id b)
  freeze-Frozen b id a ledger found not_closed = by_status a.status refl
    where
      by_status :
          (s : AccountStatus) → a.status ≡ s → Frozen b id (freeze (local disk time_at) id b)
      by_status AccountStatus.active e =
          let after = freeze_active b id a found e in
          let same = lookup-id b.processor.accounts ledger id a found in
          record {
            returned = after.0;
            account = with_status AccountStatus.frozen a;
            found =
                ap (lookup id) after.1
                ∙ rw (← same) (
                    lookup-insert_self a.id (with_status AccountStatus.frozen a)
                      b.processor.accounts);
            frozen = refl;
            ledger = subst IsLedger (sym after.1) (
                save-IsLedger (with_status AccountStatus.frozen a) b.processor.accounts
                  (lookup-Fits b.processor.accounts ledger id a found) ledger);
            same_wal = after.2;
          }
      by_status AccountStatus.frozen e = rw (freeze_frozen b id a found e) (record {
        returned = refl;
        account = a;
        found = found;
        frozen = e;
        ledger = ledger;
        same_wal = refl;
      })
      by_status AccountStatus.closed e = absurd (not_closed e)

  unmoved_value :
      (txn : Transaction) (m : Accounts) (o : Option TransactionRecord) (m' : Accounts)
      → MovesAll txn m o m'
      → is_some o ≢ true
      → (is_some o ≡ false) × (m' ≡ m)
  unmoved_value txn m none m' h failed = (refl, h)
  unmoved_value txn m (some r) m' h failed = absurd (failed refl)

  unmoved :
      (txn : Transaction) (m : Accounts) (i : TransactionId) (r : Throws (Result TransactionRecord))
      (m' : Accounts)
      → Settles txn m r m'
      → succeeded disk time_at txn i r ≢ true
      → (succeeded disk time_at txn i r ≡ false) × (m' ≡ m)
  unmoved txn m i (throw ex) m' h failed = absurd h
  unmoved txn m i (ok r) m' h failed = unmoved_value txn m r.result_value m' h.1 failed

  not_permitted :
      (m : Accounts) (txn : Transaction) (id : AccountId) (a : Account)
      → lookup id m ≡ some a
      → a.status ≡ AccountStatus.frozen
      → contains (involved_accounts txn) id ≡ true
      → ¬ Permits m txn
  not_permitted m txn id a found frozen named h =
      let held = named-Holds m txn id h named in cc (held.found, found, held.open_now, frozen)

  -- Freezing an account of the ledger that is not closed succeeds. Afterwards every transaction that
  -- names the account fails and leaves all accounts as they were, whatever its kind and amount, if
  -- its id is not in the journal yet.
  pub freeze-process_impl :
      (b : LocalBank) (id : AccountId) (a : Account) (txn : Transaction) (i : TransactionId)
      → IsReliable disk
      → IsLedger b.processor.accounts
      → lookup id b.processor.accounts ≡ some a
      → a.status ≢ AccountStatus.closed
      → contains (involved_accounts txn) id ≡ true
      → Lacks i b.processor.wal.entries
      → let (r, b') = freeze (local disk time_at) id b in
        let (r', p') = process_impl (local disk time_at) txn i b'.processor in
        (r ≡ ok void_success)
        × (succeeded disk time_at txn i r' ≡ false)
        × (p'.accounts ≡ b'.processor.accounts)
  freeze-process_impl b id a txn i reliable ledger found not_closed named fresh =
      let f = freeze-Frozen b id a ledger found not_closed in
      let p = (freeze (local disk time_at) id b).1.processor in
      let fresh' = subst (λ (w : Wal). Lacks i w.entries) (sym f.same_wal) fresh in
      let rest =
        unmoved txn p.accounts i _ _
          (process_impl-Settles disk time_at txn i p reliable fresh' f.ledger)
          (λ h.
            not_permitted p.accounts txn id f.account f.found f.frozen named
              ((process_impl-Permits_iff disk time_at txn i p reliable fresh' f.ledger).0 h)) in
      (f.returned, rest.0, rest.1)

  -- Freezing an active account of the ledger and unfreezing it both succeed. Afterwards the account
  -- is as it was but for its version, which has been counted up twice, and every other account is
  -- as it was.
  pub unfreeze-freeze :
      (b : LocalBank) (id : AccountId) (a : Account)
      → IsLedger b.processor.accounts
      → lookup id b.processor.accounts ≡ some a
      → a.status ≡ AccountStatus.active
      → let (r, b') = freeze (local disk time_at) id b in
        let (r', b'') = unfreeze (local disk time_at) id b' in
        (r ≡ ok void_success)
        × (r' ≡ ok void_success)
        × (lookup id b''.processor.accounts ≡ some (record a { version = bump (bump a.version) }))
        × ((j : AccountId)
            → j ≢ id
            → lookup j b''.processor.accounts ≡ lookup j b.processor.accounts)
  unfreeze-freeze b id a ledger found active =
      let m = b.processor.accounts in
      let same = lookup-id m ledger id a found in
      let frozen = with_status AccountStatus.frozen a in
      let thawed = with_status AccountStatus.active frozen in
      let first = freeze_active b id a found active in
      let b' = (freeze (local disk time_at) id b).1 in
      let now_frozen : lookup id b'.processor.accounts ≡ some frozen =
        ap (lookup id) first.1 ∙ rw (← same) (lookup-insert_self a.id frozen m) in
      let second = unfreeze_frozen b' id frozen now_frozen refl in
      (
        first.0,
        second.0,
        ap (lookup id) second.1
            ∙ subst
                (λ k. lookup k (insert_or_assign a.id thawed b'.processor.accounts) ≡ some thawed)
                same (lookup-insert_self a.id thawed b'.processor.accounts)
            ∙ ap (λ s. some (record thawed { status = s })) (sym active),
        λ j other.
            ap (lookup j) second.1
            ∙ lookup-insert_ne a.id j thawed _ (λ e. other (sym e ∙ same))
            ∙ ap (lookup j) first.1
            ∙ lookup-insert_ne a.id j frozen m (λ e. other (sym e ∙ same)),
      )
