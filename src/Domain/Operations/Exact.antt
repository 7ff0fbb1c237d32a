-- ===== src/Domain/Operations/Exact.antt =====
-- src/domain/TransactionOps.cpp: exactly when apply returns, and the balances that it leaves.
use bank_managment_system.Prelude.{
  ◌+◌, ◌≤◌, ◌<◌, ◌≡◌, ◌≢◌, ◌↔◌, ◌⊎◌, subst, refl, true, false, some, List, [], ◌∷◌, All, arith, sym,
  ◌∙◌, Bool-cases, inl, inr,
}
use bank_managment_system.Prelude.Text.{text}
use bank_managment_system.Prelude.Exec.{Exec, Throws, ok, continue, throw, overflow_error}
use bank_managment_system.Domain.Types.{AccountId}
use bank_managment_system.Domain.Money.{Money, int64_max}
use bank_managment_system.Domain.Account
use bank_managment_system.Domain.Account.{Account}
use bank_managment_system.Domain.Account.Laws.{
  credited, debited, Fits, deposit_credits, deposit_overflows, withdraw_debits, deposit_room,
  deposit-Fits, withdraw-Fits, id-deposit, id-withdraw,
}
use bank_managment_system.Domain.Transaction.{Transaction}
use bank_managment_system.Domain.Operations.{
  find_account, on_account, validate, apply, apply_unchecked,
}
use bank_managment_system.Domain.Operations.Find.{
  on_account_call, find-on_account_ne, find_account-All, on_account-result,
}
use bank_managment_system.Domain.Operations.Effect.{
  apply_refused, apply_valid, Room, CreditFits, valid_deposit, valid_withdraw, ValidTransfer,
  valid_transfer,
}

-- The list after the debit of a transfer.
abbrev after_debit : AccountId → Money → List Account → List Account
after_debit from m l = (on_account from (Account.withdraw m) l).1

module _ {from to : AccountId} {m : Money} {l : List Account} (v : ValidTransfer from to m l) where
  debit_call :
      ((on_account from (Account.withdraw m) l).0 ≡ ok tt)
      × (find_account (after_debit from m l) from ≡ some (debited m v.debit))
  debit_call =
      on_account_call from (Account.withdraw m) l v.debit (debited m v.debit) (ok tt)
        (id-withdraw m) v.found_debit (withdraw_debits m v.debit v.covered)

  credit_found : find_account (after_debit from m l) to ≡ some v.credit
  credit_found =
      find-on_account_ne from to (Account.withdraw m) l (id-withdraw m) (λ e. v.distinct (sym e))
      ∙ v.found_credit

  second_leg :
      apply_unchecked (Transaction.transfer from to m) l
      ≡ on_account to (Account.deposit m) (after_debit from m l)
  unfolding apply_unchecked
  second_leg = ground (arith, debit_call.0)

  others_kept :
      (j : AccountId)
      → j ≢ from
      → j ≢ to
      → find_account (on_account to (Account.deposit m) (after_debit from m l)).1 j
        ≡ find_account l j
  others_kept j nf nt =
      find-on_account_ne to j (Account.deposit m) (after_debit from m l) (id-deposit m) nt
      ∙ find-on_account_ne from j (Account.withdraw m) l (id-withdraw m) nf

  -- Both legs, whatever the credit returns.
  pub transfer_legs :
      (b : Account) (r : Throws (Unit {0}))
      → Account.deposit m v.credit ≡ (r, b)
      → let (result, l') = apply_unchecked (Transaction.transfer from to m) l in
        (result ≡ r)
        × (find_account l' from ≡ some (debited m v.debit))
        × (find_account l' to ≡ some b)
        × ((j : AccountId) → j ≢ from → j ≢ to → find_account l' j ≡ find_account l j)
  transfer_legs b r e =
      let call =
        on_account_call to (Account.deposit m) (after_debit from m l) v.credit b r (id-deposit m)
          credit_found e in
      rw second_leg (
        call.0,
        find-on_account_ne to from (Account.deposit m) (after_debit from m l) (id-deposit m)
              v.distinct
            ∙ debit_call.1,
        call.1,
        others_kept,
      )

-- A transfer that validate accepts and whose credit fits takes the amount from the source, adds it
-- to the destination, counts both versions up and leaves every other account alone.
pub apply_transfers :
    (from to : AccountId) (m : Money) (l : List Account) (a b : Account)
    → validate (Transaction.transfer from to m) l ≡ true
    → find_account l from ≡ some a
    → find_account l to ≡ some b
    → b.balance.cents + m.cents ≤ int64_max
    → let (result, l') = apply (Transaction.transfer from to m) l in
      (result ≡ ok tt)
      × (find_account l' from ≡ some (debited m a))
      × (find_account l' to ≡ some (credited m b))
      × ((j : AccountId) → j ≢ from → j ≢ to → find_account l' j ≡ find_account l j)
apply_transfers from to m l a b valid fa fb fits =
    let v = valid_transfer from to m l valid in
    let ea : v.debit ≡ a = ground (arith, v.found_debit) in
    let eb : v.credit ≡ b = ground (arith, v.found_credit) in
    rw (apply_valid _ l valid, ← ea, ← eb)
      (transfer_legs v (credited m v.credit) (ok tt)
        (deposit_credits m v.credit v.positive (rw eb fits)))

-- The credit of a valid transfer may overflow. Then apply throws, and the accounts that it was
-- given hold the debit without the credit.
pub apply-transfer_overflow :
    (from to : AccountId) (m : Money) (l : List Account) (a b : Account)
    → All Fits l
    → validate (Transaction.transfer from to m) l ≡ true
    → find_account l from ≡ some a
    → find_account l to ≡ some b
    → int64_max < b.balance.cents + m.cents
    → let (result, l') = apply (Transaction.transfer from to m) l in
      (result ≡ throw (overflow_error (text "Money: addition overflow")))
      × (find_account l' from ≡ some (debited m a))
      × (find_account l' to ≡ some b)
apply-transfer_overflow from to m l a b fit valid fa fb over =
    let v = valid_transfer from to m l valid in
    let ea : v.debit ≡ a = ground (arith, v.found_debit) in
    let eb : v.credit ≡ b = ground (arith, v.found_credit) in
    let fits = find_account-All Fits to l b fit fb in
    let legs =
      transfer_legs v b (throw (overflow_error (text "Money: addition overflow")))
        (rw eb (deposit_overflows m b fits over)) in
    rw (apply_valid _ l valid, ← ea) (legs.0, legs.1, legs.2)

-- The call that credits returns exactly if the amount fits.
credit_ok :
    (txn : Transaction) (l : List Account)
    → validate txn l ≡ true
    → CreditFits txn l
    → (apply_unchecked txn l).0 ≡ ok tt
unfolding apply_unchecked
credit_ok (Transaction.deposit id m) l valid fits =
    let (a, found, _, positive) = valid_deposit id m l valid in
    (on_account_call id (Account.deposit m) l a (credited m a) (ok tt) (id-deposit m) found
      (deposit_credits m a positive (subst (Room m) found fits))).0
credit_ok (Transaction.withdraw id m) l valid fits =
    let (a, found, can, _) = valid_withdraw id m l valid in
    (on_account_call id (Account.withdraw m) l a (debited m a) (ok tt) (id-withdraw m) found
      (withdraw_debits m a can)).0
credit_ok (Transaction.transfer from to m) l valid fits =
    let v = valid_transfer from to m l valid in
    unfold apply_unchecked in
    (transfer_legs v (credited m v.credit) (ok tt)
      (deposit_credits m v.credit v.positive (subst (Room m) v.found_credit fits))).0

credit_room :
    (txn : Transaction) (l : List Account)
    → All Fits l
    → validate txn l ≡ true
    → (apply_unchecked txn l).0 ≡ ok tt
    → CreditFits txn l
credit_room (Transaction.deposit id m) l fit valid returned =
    let (a, found, _, positive) = valid_deposit id m l valid in
    let call : (Account.deposit m a).0 ≡ ok tt =
      unfold apply_unchecked in cc (on_account-result id (Account.deposit m) l, found, returned) in
    rw found (deposit_room m a (find_account-All Fits id l a fit found) positive call)
credit_room (Transaction.withdraw id m) l fit valid returned = tt
credit_room (Transaction.transfer from to m) l fit valid returned =
    let v = valid_transfer from to m l valid in
    let legs = transfer_legs v (Account.deposit m v.credit).1 (Account.deposit m v.credit).0 refl in
    rw v.found_credit (
      deposit_room m v.credit (find_account-All Fits to l v.credit fit v.found_credit) v.positive
        (sym legs.0 ∙ returned))

-- Over accounts whose balances fit, apply returns exactly if validate accepts the transaction and
-- the credited balance, where there is one, stays within int64_t.
pub apply-ok_iff :
    (txn : Transaction) (l : List Account)
    → All Fits l
    → ((apply txn l).0 ≡ ok tt) ↔ ((validate txn l ≡ true) × CreditFits txn l)
apply-ok_iff txn l fit = (
  λ h. only h (Bool-cases (validate txn l)),
  λ h. rw (apply_valid txn l h.0) (credit_ok txn l h.0 h.1),
)
  where
    only :
        (apply txn l).0 ≡ ok tt
        → (validate txn l ≡ true) ⊎ (validate txn l ≡ false)
        → (validate txn l ≡ true) × CreditFits txn l
    only h (inl valid) = (valid, credit_room txn l fit valid (rw (apply_valid txn l valid) at h))
    only h (inr refused) = cc (apply_refused txn l refused)

on_account-Fits :
    (id : AccountId) (method : Exec Account (Unit {0})) (l : List Account)
    → ((a : Account) → Fits a → Fits (method a).1)
    → All Fits l
    → All Fits (on_account id method l).1
unfolding on_account
on_account-Fits id method [] keeps h = tt
on_account-Fits id method (a ∷ l) keeps h =
    ground (arith, keeps a h.0, on_account-Fits id method l keeps h.1)

applied-Fits :
    (txn : Transaction) (l : List Account) → All Fits l → All Fits (apply_unchecked txn l).1
unfolding apply_unchecked
applied-Fits (Transaction.deposit id m) l h =
    on_account-Fits id (Account.deposit m) l (deposit-Fits m) h
applied-Fits (Transaction.withdraw id m) l h =
    on_account-Fits id (Account.withdraw m) l (withdraw-Fits m) h
applied-Fits (Transaction.transfer from to m) l h =
    let debit = on_account-Fits from (Account.withdraw m) l (withdraw-Fits m) h in
    elim (on_account from (Account.withdraw m) l).0
      as (λ r.
        All Fits (continue (λ _. on_account to (Account.deposit m)) r (after_debit from m l)).1) [
          | ok u ↦
              on_account-Fits to (Account.deposit m) (after_debit from m l) (deposit-Fits m) debit
          | throw ex ↦ debit
        ]

-- apply keeps every balance an int64_t.
pub apply-Fits : (txn : Transaction) (l : List Account) → All Fits l → All Fits (apply txn l).1
apply-Fits txn l h = elim (Bool-cases (validate txn l)) [
  | inl valid ↦ rw (apply_valid txn l valid) (applied-Fits txn l h)
  | inr refused ↦ rw (apply_refused txn l refused) h
]
