-- ===== src/Domain/Operations.antt =====
-- src/domain/TransactionOps.cpp: validation of a transaction against account snapshots, and its
-- application to them. A span that is mutated is the state of an action.
pub mod Find
pub mod Effect
pub mod Exact
pub mod Rules
use bank_managment_system.Prelude.{
  ◌==◌, Bool, false, not, ◌&&◌, ◌||◌, if◌then◌else◌, Option, none, some, List, [], ◌∷◌, ◌++◌,
}
use bank_managment_system.Prelude.Text.{text}
use bank_managment_system.Prelude.Exec.{Exec, throw, domain_error, out_of_range, ◌>>◌}
use bank_managment_system.Domain.Types.{AccountId, AccountStatus, status_eq}
use bank_managment_system.Domain.Money.{is_positive, can_subtract}
use bank_managment_system.Domain.Account
use bank_managment_system.Domain.Account.{Account}
use bank_managment_system.Domain.Transaction.{Transaction, debit_account, credit_account}

unfoldable pub find_account : List Account → AccountId → Option Account
find_account [] id = none
find_account (a ∷ rest) id = if a.id == id then some a else find_account rest id

-- A call of a mutating member function through the reference that require_account returns.
unfoldable pub on_account : AccountId → Exec Account (Unit {0}) → Exec (List Account) (Unit {0})
on_account id method [] =
    (throw (out_of_range (text "apply: involved account missing from span")), [])
on_account id method (a ∷ rest) =
    let later = on_account id method rest in
    if a.id == id then (let (r, a') = method a in (r, a' ∷ rest)) else (later.0, a ∷ later.1)

-- std::find over the ids so far.
abbrev pub contains : List AccountId → AccountId → Bool
contains [] id = false
contains (x ∷ ids) id = x == id || contains ids id

abbrev pub push_unique : List AccountId → Option AccountId → List AccountId
push_unique ids none = ids
push_unique ids (some id) = if contains ids id then ids else ids ++ id ∷ []

unfoldable pub involved_accounts : Transaction → List AccountId
unfolding debit_account credit_account
involved_accounts txn = push_unique (push_unique [] (debit_account txn)) (credit_account txn)

abbrev pub is_active : Account → Bool
is_active a = status_eq a.status AccountStatus.active

unfoldable pub validate : Transaction → List Account → Bool
unfolding Account.can_withdraw
validate (Transaction.deposit id amount) accounts = elim (find_account accounts id) [
  | none ↦ false
  | some target ↦ is_active target && is_positive amount
]
validate (Transaction.withdraw id amount) accounts = elim (find_account accounts id) [
  | none ↦ false
  | some source ↦ is_positive amount && Account.can_withdraw source amount
]
validate (Transaction.transfer from to amount) accounts =
    if from == to || not (is_positive amount) then false else elim (find_account accounts from) [
      | none ↦ false
      | some debit ↦ elim (find_account accounts to) [
        | none ↦ false
        | some credit ↦ is_active debit && is_active credit && can_subtract debit.balance amount
      ]
    ]

-- The visitor of apply.
unfoldable pub apply_unchecked : Transaction → Exec (List Account) (Unit {0})
apply_unchecked (Transaction.deposit id amount) = on_account id (Account.deposit amount)
apply_unchecked (Transaction.withdraw id amount) = on_account id (Account.withdraw amount)
apply_unchecked (Transaction.transfer from to amount) =
    on_account from (Account.withdraw amount) >> on_account to (Account.deposit amount)

unfoldable pub apply : Transaction → Exec (List Account) (Unit {0})
unfolding validate apply_unchecked
apply txn accounts =
    if not (validate txn accounts)
    then (throw (domain_error (text "apply: transaction violates bank rules")), accounts)
    else apply_unchecked txn accounts
