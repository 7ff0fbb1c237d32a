-- ===== src/Domain/Transaction.antt =====
-- src/domain/Transaction.h and Transaction.cpp: a transaction, its flat record, and its text.
pub mod RoundTrip
use bank_managment_system.Prelude.{ℕ, ◌/◌, ◌%◌, ltb, if◌then◌else◌, Option, none, some, [], ◌++◌}
use bank_managment_system.Prelude.Int.{ℤ}
use bank_managment_system.Prelude.Text.{Bytes, text, to_string}
use bank_managment_system.Prelude.Exec.{Throws, ok, throw, invalid_argument}
use bank_managment_system.Domain.Types.{AccountId, TransactionId, TransactionType, TransactionState}
use bank_managment_system.Domain.Money.{Money}

-- std::variant<Deposit, Withdraw, Transfer>
pub data Transaction : Type 0 where
  deposit : AccountId → Money → Transaction
  withdraw : AccountId → Money → Transaction
  transfer : AccountId → AccountId → Money → Transaction

pub record TransactionRecord : Type 0 where
  pub id : TransactionId
  pub timestamp : ℤ
  pub type : TransactionType
  pub state : TransactionState
  pub from : Option AccountId
  pub to : Option AccountId
  pub amount : Money

unfoldable pub type_of : Transaction → TransactionType
type_of (Transaction.deposit _ _) = TransactionType.deposit
type_of (Transaction.withdraw _ _) = TransactionType.withdraw
type_of (Transaction.transfer _ _ _) = TransactionType.transfer

unfoldable pub amount_of : Transaction → Money
amount_of (Transaction.deposit _ m) = m
amount_of (Transaction.withdraw _ m) = m
amount_of (Transaction.transfer _ _ m) = m

-- The side that gives money away.
unfoldable pub debit_account : Transaction → Option AccountId
debit_account (Transaction.deposit _ _) = none
debit_account (Transaction.withdraw a _) = some a
debit_account (Transaction.transfer from _ _) = some from

-- The side that receives it.
unfoldable pub credit_account : Transaction → Option AccountId
credit_account (Transaction.deposit a _) = some a
credit_account (Transaction.withdraw _ _) = none
credit_account (Transaction.transfer _ to _) = some to

-- `now` is what timeutil::now() returns at this call.
unfoldable pub project_transaction : ℤ → TransactionId → Transaction → TransactionRecord
unfolding type_of amount_of debit_account credit_account
project_transaction now id txn = record {
  id = id;
  timestamp = now;
  type = type_of txn;
  state = TransactionState.pending;
  from = debit_account txn;
  to = credit_account txn;
  amount = amount_of txn;
}

unfoldable pub materialize :
    TransactionType → Option AccountId → Option AccountId → Money → Throws Transaction
materialize TransactionType.deposit _ (some to) m = ok (Transaction.deposit to m)
materialize TransactionType.deposit _ none m =
    throw (invalid_argument (text "materialize: deposit record lacks a target"))
materialize TransactionType.withdraw (some from) _ m = ok (Transaction.withdraw from m)
materialize TransactionType.withdraw none _ m =
    throw (invalid_argument (text "materialize: withdraw record lacks a source"))
materialize TransactionType.transfer (some from) (some to) m = ok (Transaction.transfer from to m)
materialize TransactionType.transfer _ _ m =
    throw (invalid_argument (text "materialize: transfer record lacks a leg"))

unfoldable pub materialize_transaction : TransactionRecord → Throws Transaction
unfolding materialize
materialize_transaction r = materialize r.type r.from r.to r.amount

unfoldable pub format_money : ℕ → Bytes
format_money cents =
    text "$"
    ++ (to_string (cents / 100)
        ++ (text "."
            ++ ((if ltb (cents % 100) 10 then text "0" else []) ++ to_string (cents % 100))))

unfoldable pub describe : Transaction → Bytes
unfolding format_money
describe (Transaction.deposit a m) =
    text "deposit account " ++ (to_string a ++ (text " += " ++ format_money m.cents))
describe (Transaction.withdraw a m) =
    text "withdraw account " ++ (to_string a ++ (text " -= " ++ format_money m.cents))
describe (Transaction.transfer from to m) =
    text "transfer "
    ++ (format_money m.cents
        ++ (text " account " ++ (to_string from ++ (text " -> " ++ to_string to))))
