-- ===== src/Persistence/Deserializer.antt =====
-- src/persistence/Serializer.cpp: records and accounts from JSON objects. Times stay within the range
-- of the clock, in which the conversion from milliseconds does not overflow.
pub mod RoundTrip
pub mod Lines
use bank_managment_system.Prelude.{
  ℕ, zero, suc, ◌+◌, ◌*◌, ◌-◌, Bool, true, false, if◌then◌else◌, Option, none, some,
}
use bank_managment_system.Prelude.Int.{ℤ, pos, negsuc}
use bank_managment_system.Prelude.Text.{Bytes, text}
use bank_managment_system.Domain.Types.{
  AccountId, transaction_type_from_string, transaction_state_from_string,
  account_status_from_string,
}
use bank_managment_system.Domain.Account.{Account}
use bank_managment_system.Domain.Transaction.{TransactionRecord}
use bank_managment_system.Persistence.Json.{Value, as_integer, as_string, find}
use bank_managment_system.Persistence.Parser.{parse}
use bank_managment_system.Persistence.Serializer.{to_uint64}

-- timeutil::from_unix_ms
unfoldable pub from_unix_ms : ℤ → ℤ
from_unix_ms (pos ms) = pos (ms * 1_000_000)
from_unix_ms (negsuc ms) = negsuc ((ms + 1) * 1_000_000 - 1)

-- What follows a test for a value.
abbrev pub given : {A B : Type 0} → Option A → (A → Option B) → Option B
given none f = none
given (some a) f = f a

-- A number that is not negative.
abbrev pub natural : ℤ → Option ℕ
natural (pos n) = some n
natural (negsuc _) = none

-- The lambdas int_of and str_of.
abbrev pub int_of : Bytes → Value → Option ℤ
int_of key v = given (find key v) as_integer

abbrev pub str_of : Bytes → Value → Option Bytes
str_of key v = given (find key v) as_string

-- The lambda opt_id_of: no value, no account, or an account.
abbrev pub as_opt_id : Value → Option (Option AccountId)
as_opt_id Value.null = some none
as_opt_id (Value.integer (pos n)) = some (some n)
as_opt_id _ = none

abbrev pub opt_id_of : Bytes → Value → Option (Option AccountId)
opt_id_of key v = given (find key v) as_opt_id

unfoldable pub transaction_from_json : Value → Option TransactionRecord
transaction_from_json v = given (int_of (text "id") v) λ id. given (int_of (text "ts") v) λ ts.
    given (str_of (text "type") v) λ type_text. given (str_of (text "state") v) λ state_text.
      given (opt_id_of (text "from") v) λ from. given (opt_id_of (text "to") v) λ to.
        given (given (int_of (text "amount") v) natural) λ cents.
          given (transaction_type_from_string type_text) λ type.
            given (transaction_state_from_string state_text) λ state. some (record {
              id = to_uint64 id;
              timestamp = from_unix_ms ts;
              type = type;
              state = state;
              from = from;
              to = to;
              amount = record { cents = cents };
            })

unfoldable pub account_from_json : Value → Option Account
account_from_json v = given (given (int_of (text "id") v) natural) λ id.
    given (given (int_of (text "owner") v) natural) λ owner.
      given (given (int_of (text "balance") v) natural) λ balance.
        given (str_of (text "status") v) λ status_text.
          given (given (int_of (text "version") v) natural) λ version.
            given (account_status_from_string status_text) λ status. some (record {
              id = id;
              owner_id = owner;
              balance = record { cents = balance };
              status = status;
              version = version;
            })

unfoldable pub deserialize_transaction : Bytes → Option TransactionRecord
unfolding parse transaction_from_json
deserialize_transaction line = given (parse line) transaction_from_json

unfoldable pub deserialize_account : Bytes → Option Account
unfolding parse account_from_json
deserialize_account line = given (parse line) account_from_json
