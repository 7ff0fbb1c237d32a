-- ===== src/Domain/Operations/Rules.antt =====
-- src/domain/TransactionOps.cpp: the bank rules that validate enforces, stated apart from its tests.
use bank_managment_system.Prelude.{
  ◌≤◌, ◌<◌, ◌≡◌, ◌≢◌, refl, true, ◌↔◌, some, List, arith, Option-cases, inl, inr,
}
use bank_managment_system.Domain.Types.{AccountId, AccountStatus, status_eq}
use bank_managment_system.Domain.Money.{Money}
use bank_managment_system.Domain.Account
use bank_managment_system.Domain.Account.{Account}
use bank_managment_system.Domain.Transaction.{Transaction}
use bank_managment_system.Domain.Operations.{find_account, validate}

-- The account is there and active.
pub record Open (l : List Account) (id : AccountId) : Type 0 where
  pub account : Account
  pub found : find_account l id ≡ some account
  pub open_now : account.status ≡ AccountStatus.active

-- The account is there, active, and covers the amount.
pub record Covers (l : List Account) (id : AccountId) (m : Money) : Type 0 where
  pub its : Open l id
  pub covered : m.cents ≤ its.account.balance.cents

abbrev pub Permitted : Transaction → List Account → Type 0
Permitted (Transaction.deposit id m) l = (0 < m.cents) × Open l id
Permitted (Transaction.withdraw id m) l = (0 < m.cents) × Covers l id m
Permitted (Transaction.transfer from to m) l =
    (0 < m.cents) × (from ≢ to) × Covers l from m × Open l to

active_status :
    (s : AccountStatus) → status_eq s AccountStatus.active ≡ true → s ≡ AccountStatus.active
active_status AccountStatus.active h = refl
active_status AccountStatus.frozen h = cc
active_status AccountStatus.closed h = cc

valid_deposit-Permitted :
    (id : AccountId) (m : Money) (l : List Account)
    → (validate (Transaction.deposit id m) l ≡ true) ↔ Permitted (Transaction.deposit id m) l
unfolding validate
valid_deposit-Permitted id m l = (
  λ h. elim (Option-cases (find_account l id)) [
    | inl e ↦ absurd (ground arith)
    | inr (a, e) ↦ (
      ground arith,
      record { account = a; found = e; open_now = active_status a.status (ground arith) },
    )
  ],
  λ h. let found = h.1.found in let active = h.1.open_now in let positive = h.0 in ground arith,
)

valid_withdraw-Permitted :
    (id : AccountId) (m : Money) (l : List Account)
    → (validate (Transaction.withdraw id m) l ≡ true) ↔ Permitted (Transaction.withdraw id m) l
unfolding validate Account.can_withdraw
valid_withdraw-Permitted id m l = (
  λ h. elim (Option-cases (find_account l id)) [
    | inl e ↦ absurd (ground arith)
    | inr (a, e) ↦ (
      ground arith,
      record {
        its = record { account = a; found = e; open_now = active_status a.status (ground arith) };
        covered = ground arith;
      },
    )
  ],
  λ h.
      let found = h.1.its.found in
      let active = h.1.its.open_now in
      let covered = h.1.covered in let positive = h.0 in ground arith,
)

valid_transfer-Permitted :
    (from to : AccountId) (m : Money) (l : List Account)
    → (validate (Transaction.transfer from to m) l ≡ true)
      ↔ Permitted (Transaction.transfer from to m) l
unfolding validate
valid_transfer-Permitted from to m l = (
  λ h. elim (Option-cases (find_account l from)) [
    | inl e ↦ absurd (ground arith)
    | inr (a, e) ↦ elim (Option-cases (find_account l to)) [
      | inl e' ↦ absurd (ground arith)
      | inr (b, e') ↦ (
        ground arith,
        ground arith,
        record {
          its = record { account = a; found = e; open_now = active_status a.status (ground arith) };
          covered = ground arith;
        },
        record { account = b; found = e'; open_now = active_status b.status (ground arith) },
      )
    ]
  ],
  λ h.
      let found = h.2.its.found in
      let active = h.2.its.open_now in
      let covered = h.2.covered in
      let found' = h.3.found in
      let active' = h.3.open_now in
      let positive = h.0 in let differ = h.1 in rw (found, found', active, active') (ground arith),
)

-- validate accepts a transaction exactly if the bank rules permit it: its amount is positive, every
-- account that it names is there and active, an account that gives the money away covers the
-- amount, and a transfer has two different accounts.
pub validate-Permitted_iff :
    (txn : Transaction) (l : List Account) → (validate txn l ≡ true) ↔ Permitted txn l
validate-Permitted_iff (Transaction.deposit id m) l = valid_deposit-Permitted id m l
validate-Permitted_iff (Transaction.withdraw id m) l = valid_withdraw-Permitted id m l
validate-Permitted_iff (Transaction.transfer from to m) l = valid_transfer-Permitted from to m l
