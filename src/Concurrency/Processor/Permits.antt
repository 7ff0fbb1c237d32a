-- ===== src/Concurrency/Processor/Permits.antt =====
-- src/concurrency/TransactionProcessor.cpp over the in-memory repositories: which transactions go
-- through, in terms of the accounts that the repository holds.
use bank_managment_system.Prelude.{
  ℕ, ◌+◌, ◌≤◌, ◌<◌, ◌≡◌, ◌≢◌, sym, subst, ◌∙◌, true, some, List, ◌↔◌, is_empty, arith,
}
use bank_managment_system.Prelude.Int.{ℤ}
use bank_managment_system.Prelude.OrderedMap.{lookup}
use bank_managment_system.Domain.Types.{AccountId, AccountStatus, TransactionId}
use bank_managment_system.Domain.Money.{Money, int64_max}
use bank_managment_system.Domain.Account.{Account}
use bank_managment_system.Domain.Transaction.{Transaction, debit_account, credit_account}
use bank_managment_system.Domain.Operations.{involved_accounts, contains, find_account}
use bank_managment_system.Domain.Operations.Effect.{Room}
use bank_managment_system.Domain.Operations.Rules.{Open, Covers, validate-Permitted_iff}
use bank_managment_system.Persistence.InMemory.{Accounts}
use bank_managment_system.Persistence.InMemory.Laws.{IsLedger}
use bank_managment_system.Persistence.Wal.{Disk}
use bank_managment_system.Persistence.Wal.Laws.{IsReliable, Lacks}
use bank_managment_system.Concurrency.Processor.{sort, insert_id, process_impl}
use bank_managment_system.Concurrency.Processor.Local.{local, Local, found_in}
use bank_managment_system.Concurrency.Processor.Found.{
  found_in-AllFound, found_both, find-Loaded, involved_from, involved_to,
}
use bank_managment_system.Concurrency.Processor.Settlement.{
  GoesThrough, succeeded, process_impl-success_iff,
}

-- The repository holds the account, and it is active.
pub record Holds (m : Accounts) (id : AccountId) : Type 0 where
  pub account : Account
  pub found : lookup id m ≡ some account
  pub open_now : account.status ≡ AccountStatus.active

pub record Pays (m : Accounts) (id : AccountId) (amount : Money) : Type 0 where
  pub its : Holds m id
  pub covered : amount.cents ≤ its.account.balance.cents

pub record Receives (m : Accounts) (id : AccountId) (amount : Money) : Type 0 where
  pub its : Holds m id
  pub room : its.account.balance.cents + amount.cents ≤ int64_max

abbrev pub Permits : Accounts → Transaction → Type 0
Permits m (Transaction.deposit id amount) = (0 < amount.cents) × Receives m id amount
Permits m (Transaction.withdraw id amount) = (0 < amount.cents) × Pays m id amount
Permits m (Transaction.transfer from to amount) =
    (0 < amount.cents) × (from ≢ to) × Pays m from amount × Receives m to amount

deposit_names :
    (id : AccountId) (amount : Money)
    → contains (sort (involved_accounts (Transaction.deposit id amount))) id ≡ true
unfolding involved_accounts debit_account credit_account sort insert_id
deposit_names id amount = ground arith

withdraw_names :
    (id : AccountId) (amount : Money)
    → contains (sort (involved_accounts (Transaction.withdraw id amount))) id ≡ true
unfolding involved_accounts debit_account credit_account sort insert_id
withdraw_names id amount = ground arith

deposit_present :
    (m : Accounts) (id : AccountId) (amount : Money) (a : Account)
    → lookup id m ≡ some a
    → is_empty (found_in m (sort (involved_accounts (Transaction.deposit id amount)))).1 ≡ true
unfolding involved_accounts debit_account credit_account sort insert_id
deposit_present m id amount a e = ground arith

withdraw_present :
    (m : Accounts) (id : AccountId) (amount : Money) (a : Account)
    → lookup id m ≡ some a
    → is_empty (found_in m (sort (involved_accounts (Transaction.withdraw id amount)))).1 ≡ true
unfolding involved_accounts debit_account credit_account sort insert_id
withdraw_present m id amount a e = ground arith

module _ (m : Accounts) (ledger : IsLedger m) (txn : Transaction)
    (present : is_empty (found_in m (sort (involved_accounts txn))).1 ≡ true) where
  abbrev loaded : List Account
  loaded = (found_in m (sort (involved_accounts txn))).0

  -- An account that the transaction names is loaded as the repository holds it.
  same_account :
      (j : AccountId)
      → contains (sort (involved_accounts txn)) j ≡ true
      → find_account loaded j ≡ lookup j m
  same_account j named =
      let all = found_in-AllFound m ledger (sort (involved_accounts txn)) present in
      find-Loaded m loaded j all.loaded (subst (λ k. contains k j ≡ true) (sym all.same_ids) named)

  Holds-Open :
      (j : AccountId) → contains (sort (involved_accounts txn)) j ≡ true → Holds m j → Open loaded j
  Holds-Open j named o = record {
    account = o.account;
    found = same_account j named ∙ o.found;
    open_now = o.open_now;
  }

  Open-Receives :
      (j : AccountId) (amount : Money)
      → contains (sort (involved_accounts txn)) j ≡ true
      → Open loaded j
      → Room amount (find_account loaded j)
      → Receives m j amount
  Open-Receives j amount named o room = record {
    its = record {
      account = o.account;
      found = sym (same_account j named) ∙ o.found;
      open_now = o.open_now;
    };
    room = subst (Room amount) o.found room;
  }

  Receives-Room :
      (j : AccountId) (amount : Money)
      → contains (sort (involved_accounts txn)) j ≡ true
      → Receives m j amount
      → Room amount (find_account loaded j)
  Receives-Room j amount named o =
      subst (Room amount) (sym (same_account j named ∙ o.its.found)) o.room

  Covers-Pays :
      (j : AccountId) (amount : Money)
      → contains (sort (involved_accounts txn)) j ≡ true
      → Covers loaded j amount
      → Pays m j amount
  Covers-Pays j amount named c = record {
    its = record {
      account = c.its.account;
      found = sym (same_account j named) ∙ c.its.found;
      open_now = c.its.open_now;
    };
    covered = c.covered;
  }

  Pays-Covers :
      (j : AccountId) (amount : Money)
      → contains (sort (involved_accounts txn)) j ≡ true
      → Pays m j amount
      → Covers loaded j amount
  Pays-Covers j amount named c = record {
    its = record {
      account = c.its.account;
      found = same_account j named ∙ c.its.found;
      open_now = c.its.open_now;
    };
    covered = c.covered;
  }

Permits-GoesThrough :
    (disk : Disk) (time_at : ℕ → ℤ) (id : TransactionId) (m : Accounts) (txn : Transaction)
    → IsLedger m
    → Permits m txn
    → GoesThrough disk time_at txn id m
Permits-GoesThrough disk time_at id m (Transaction.deposit j amount) ledger h =
    let txn = Transaction.deposit j amount in
    let present = deposit_present m j amount h.1.its.account h.1.its.found in
    let named = deposit_names j amount in
    (
      present,
      (validate-Permitted_iff txn _).1 (h.0, Holds-Open m ledger txn present j named h.1.its),
      Receives-Room m ledger txn present j amount named h.1,
    )
Permits-GoesThrough disk time_at id m (Transaction.withdraw j amount) ledger h =
    let txn = Transaction.withdraw j amount in
    let present = withdraw_present m j amount h.1.its.account h.1.its.found in
    let named = withdraw_names j amount in
    (
      present,
      (validate-Permitted_iff txn _).1 (h.0, Pays-Covers m ledger txn present j amount named h.1),
      tt,
    )
Permits-GoesThrough disk time_at id m (Transaction.transfer from to amount) ledger h =
    let txn = Transaction.transfer from to amount in
    let present =
      found_both m from to amount h.2.its.account h.3.its.account h.2.its.found h.3.its.found in
    let names_to = involved_to from to amount in
    (
      present,
      (validate-Permitted_iff txn _).1 (
        h.0,
        h.1,
        Pays-Covers m ledger txn present from amount (involved_from from to amount) h.2,
        Holds-Open m ledger txn present to names_to h.3.its,
      ),
      Receives-Room m ledger txn present to amount names_to h.3,
    )

GoesThrough-Permits :
    (disk : Disk) (time_at : ℕ → ℤ) (id : TransactionId) (m : Accounts) (txn : Transaction)
    → IsLedger m
    → GoesThrough disk time_at txn id m
    → Permits m txn
GoesThrough-Permits disk time_at id m (Transaction.deposit j amount) ledger h =
    let txn = Transaction.deposit j amount in
    let rules = (validate-Permitted_iff txn _).0 h.1 in
    (rules.0, Open-Receives m ledger txn h.0 j amount (deposit_names j amount) rules.1 h.2)
GoesThrough-Permits disk time_at id m (Transaction.withdraw j amount) ledger h =
    let txn = Transaction.withdraw j amount in
    let rules = (validate-Permitted_iff txn _).0 h.1 in
    (rules.0, Covers-Pays m ledger txn h.0 j amount (withdraw_names j amount) rules.1)
GoesThrough-Permits disk time_at id m (Transaction.transfer from to amount) ledger h =
    let txn = Transaction.transfer from to amount in
    let rules = (validate-Permitted_iff txn _).0 h.1 in
    (
      rules.0,
      rules.1,
      Covers-Pays m ledger txn h.0 from amount (involved_from from to amount) rules.2,
      Open-Receives m ledger txn h.0 to amount (involved_to from to amount) rules.3 h.2,
    )

-- Over a ledger and with an id that the journal does not hold yet, process_impl succeeds exactly if
-- the repository's accounts permit the transaction: its amount is positive, each account that it
-- names is held and active, the one that pays covers the amount, the one that receives has room for
-- it within int64_t, and a transfer has two different accounts.
pub process_impl-Permits_iff :
    (disk : Disk) (time_at : ℕ → ℤ) (txn : Transaction) (id : TransactionId)
    (p : Local disk time_at)
    → IsReliable disk
    → Lacks id p.wal.entries
    → IsLedger p.accounts
    → (succeeded disk time_at txn id (process_impl (local disk time_at) txn id p).0 ≡ true)
      ↔ Permits p.accounts txn
process_impl-Permits_iff disk time_at txn id p reliable fresh ledger =
    let both = process_impl-success_iff disk time_at txn id p reliable fresh ledger in
    (
      λ h. GoesThrough-Permits disk time_at id p.accounts txn ledger (both.0 h),
      λ h. both.1 (Permits-GoesThrough disk time_at id p.accounts txn ledger h),
    )
