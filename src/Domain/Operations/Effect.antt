-- ===== src/Domain/Operations/Effect.antt =====
-- src/domain/TransactionOps.cpp: what apply does to the accounts, on every branch.
use bank_managment_system.Prelude.{
  ℕ, ◌+◌, ◌≤◌, ◌<◌, ◌≡◌, ◌≢◌, true, false, Option, none, some, List, arith, Bool-cases,
  Option-cases, inl, inr,
}
use bank_managment_system.Prelude.Text.{text}
use bank_managment_system.Prelude.Exec.{ok, throw, domain_error}
use bank_managment_system.Domain.Types.{AccountId}
use bank_managment_system.Domain.Money.{Money, int64_max}
use bank_managment_system.Domain.Account
use bank_managment_system.Domain.Account.{Account}
use bank_managment_system.Domain.Account.Laws.{
  id-deposit, id-withdraw, balance-deposit, balance-withdraw,
}
use bank_managment_system.Domain.Transaction.{Transaction}
use bank_managment_system.Domain.Operations.{
  find_account, on_account, validate, apply, apply_unchecked, is_active,
}
use bank_managment_system.Domain.Operations.Find.{ids, ids-on_account, total, total-on_account}

abbrev pub inflow : Transaction → ℕ
inflow (Transaction.deposit _ m) = m.cents
inflow (Transaction.withdraw _ _) = 0
inflow (Transaction.transfer _ _ _) = 0

abbrev pub outflow : Transaction → ℕ
outflow (Transaction.deposit _ _) = 0
outflow (Transaction.withdraw _ m) = m.cents
outflow (Transaction.transfer _ _ _) = 0

-- A refused transaction changes nothing.
pub apply_refused :
    (txn : Transaction) (l : List Account)
    → validate txn l ≡ false
    → apply txn l ≡ (throw (domain_error (text "apply: transaction violates bank rules")), l)
unfolding apply
apply_refused txn l h = rw h

pub apply_valid :
    (txn : Transaction) (l : List Account)
    → validate txn l ≡ true
    → apply txn l ≡ apply_unchecked txn l
unfolding apply
apply_valid txn l h = rw h

pub ids-apply_unchecked :
    (txn : Transaction) (l : List Account) → ids (apply_unchecked txn l).1 ≡ ids l
unfolding apply_unchecked
ids-apply_unchecked (Transaction.deposit a m) l =
    ids-on_account a (Account.deposit m) l (id-deposit m)
ids-apply_unchecked (Transaction.withdraw a m) l =
    ids-on_account a (Account.withdraw m) l (id-withdraw m)
ids-apply_unchecked (Transaction.transfer f t m) l = ground (
  arith,
  ids-on_account f (Account.withdraw m) l (id-withdraw m),
  ids-on_account t (Account.deposit m) (on_account f (Account.withdraw m) l).1 (id-deposit m),
)

pub total-apply_unchecked :
    (txn : Transaction) (l : List Account)
    → (apply_unchecked txn l).0 ≡ ok tt
    → total (apply_unchecked txn l).1 + outflow txn ≡ total l + inflow txn
unfolding apply_unchecked
total-apply_unchecked (Transaction.deposit a m) l h =
    total-on_account a m.cents 0 (Account.deposit m) l (balance-deposit m) h
total-apply_unchecked (Transaction.withdraw a m) l h =
    total-on_account a 0 m.cents (Account.withdraw m) l (balance-withdraw m) h
total-apply_unchecked (Transaction.transfer f t m) l h = ground (
  arith,
  total-on_account f 0 m.cents (Account.withdraw m) l (balance-withdraw m),
  total-on_account t m.cents 0 (Account.deposit m) (on_account f (Account.withdraw m) l).1
      (balance-deposit m),
)

-- A call of apply that returns keeps the accounts' ids and their order, and moves exactly the
-- transaction's cents into or out of the accounts: a transfer conserves the sum of the balances.
pub apply-conserves :
    (txn : Transaction) (l : List Account)
    → (apply txn l).0 ≡ ok tt
    → (total (apply txn l).1 + outflow txn ≡ total l + inflow txn) × (ids (apply txn l).1 ≡ ids l)
apply-conserves txn l h = elim (Bool-cases (validate txn l)) [
  | inl valid ↦
      let e = apply_valid txn l valid in
      rw e (total-apply_unchecked txn l (rw e at h), ids-apply_unchecked txn l)
  | inr refused ↦ cc (apply_refused txn l refused)
]

-- There is room for the amount on the account that is found.
abbrev pub Room : Money → Option Account → Type 0
Room m none = Unit
Room m (some a) = a.balance.cents + m.cents ≤ int64_max

-- The credited balance stays within int64_t.
abbrev pub CreditFits : Transaction → List Account → Type 0
CreditFits (Transaction.deposit id m) l = Room m (find_account l id)
CreditFits (Transaction.withdraw id m) l = Unit
CreditFits (Transaction.transfer from to m) l = Room m (find_account l to)

-- What validate requires, read off its tests.
pub valid_deposit :
    (id : AccountId) (m : Money) (l : List Account)
    → validate (Transaction.deposit id m) l ≡ true
    → (a : Account) × (find_account l id ≡ some a) × (is_active a ≡ true) × (0 < m.cents)
unfolding validate
valid_deposit id m l h = elim (Option-cases (find_account l id)) [
  | inl e ↦ ground arith
  | inr (a, e) ↦ (a, e, ground arith, ground arith)
]

pub valid_withdraw :
    (id : AccountId) (m : Money) (l : List Account)
    → validate (Transaction.withdraw id m) l ≡ true
    → (a : Account) × (find_account l id ≡ some a)
      × (Account.can_withdraw a m ≡ true)
      × (0 < m.cents)
unfolding validate
valid_withdraw id m l h = elim (Option-cases (find_account l id)) [
  | inl e ↦ ground arith
  | inr (a, e) ↦ (a, e, ground arith, ground arith)
]

pub record ValidTransfer (from to : AccountId) (m : Money) (l : List Account) : Type 0 where
  pub debit : Account
  pub credit : Account
  pub found_debit : find_account l from ≡ some debit
  pub found_credit : find_account l to ≡ some credit
  pub covered : Account.can_withdraw debit m ≡ true
  pub open_credit : is_active credit ≡ true
  pub positive : 0 < m.cents
  pub distinct : from ≢ to

pub valid_transfer :
    (from to : AccountId) (m : Money) (l : List Account)
    → validate (Transaction.transfer from to m) l ≡ true
    → ValidTransfer from to m l
unfolding validate
valid_transfer from to m l h = elim (Option-cases (find_account l from)) [
  | inl e ↦ absurd (ground arith)
  | inr (a, e) ↦ elim (Option-cases (find_account l to)) [
    | inl e' ↦ absurd (ground arith)
    | inr (b, e') ↦ record {
      debit = a;
      credit = b;
      found_debit = e;
      found_credit = e';
      covered = ground arith;
      open_credit = ground arith;
      positive = ground arith;
      distinct = ground arith;
    }
  ]
]

-- The rules for a transfer, given the accounts that are found.
pub record MayTransfer (from to : AccountId) (m : Money) (a b : Account) : Type 0 where
  pub differ : from ≢ to
  pub positive : 0 < m.cents
  pub source_active : is_active a ≡ true
  pub target_active : is_active b ≡ true
  pub covered : m.cents ≤ a.balance.cents

pub MayTransfer-valid :
    (from to : AccountId) (m : Money) (l : List Account) (a b : Account)
    → find_account l from ≡ some a
    → find_account l to ≡ some b
    → MayTransfer from to m a b
    → validate (Transaction.transfer from to m) l ≡ true
unfolding validate
MayTransfer-valid from to m l a b ea eb h = ground arith
