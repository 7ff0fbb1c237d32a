-- ===== src/Persistence/Deserializer/RoundTrip.antt =====
-- src/persistence/Serializer.cpp: what is read of the JSON object of a record or an account.
use bank_managment_system.Prelude.{
  ℕ, ◌-◌, ◌^◌, ◌<◌, ◌≤◌, ◌≡◌, refl, ltb, true, false, Option, none, some, arith, Bool-cases, inl,
  inr,
}
use bank_managment_system.Prelude.Int.{pos, negsuc}
use bank_managment_system.Prelude.Text.{text, text_eq}
use bank_managment_system.Domain.Types.{
  AccountId, transaction_type_to_string, transaction_state_to_string, account_status_to_string,
}
use bank_managment_system.Domain.Types.Names.{type-ReadsBack, state-ReadsBack, status-ReadsBack}
use bank_managment_system.Domain.Account.{Account}
use bank_managment_system.Domain.Transaction.{TransactionRecord}
use bank_managment_system.Persistence.Json.{as_integer, as_string, find}
use bank_managment_system.Persistence.Serializer.{
  to_int64, to_uint64, to_unix_ms, account_id_value, transaction_to_json, account_to_json,
}
use bank_managment_system.Persistence.Deserializer.{
  from_unix_ms, int_of, str_of, opt_id_of, as_opt_id, transaction_from_json, account_from_json,
}

pub to_uint64-to_int64 : (n : ℕ) → n < 2 ^ 64 → to_uint64 (to_int64 n) ≡ n
unfolding to_uint64 to_int64
to_uint64-to_int64 n h = elim (Bool-cases (ltb n (2 ^ 63))) [
  | inl small ↦ rw small refl
  | inr large ↦ rw large (omega arith)
]

pub to_int64-small : (n : ℕ) → n < 2 ^ 63 → to_int64 n ≡ pos n
unfolding to_int64
to_int64-small n h = let small : ltb n (2 ^ 63) ≡ true = ground arith in rw small refl

-- The account ids that stay positive as an int64_t.
abbrev pub IsSmall : Option AccountId → Type 0
IsSmall none = Unit
IsSmall (some id) = id < 2 ^ 63

opt_id-account_id_value :
    (o : Option AccountId) → IsSmall o → as_opt_id (account_id_value o) ≡ some o
opt_id-account_id_value none h = refl
opt_id-account_id_value (some id) h = rw (to_int64-small id h) refl

module _ (r : TransactionRecord) where
  found_id : int_of (text "id") (transaction_to_json r) ≡ some (to_int64 r.id)
  unfolding transaction_to_json find as_integer text text_eq
  found_id = refl

  found_ts : int_of (text "ts") (transaction_to_json r) ≡ some (to_unix_ms r.timestamp)
  unfolding transaction_to_json find as_integer text text_eq
  found_ts = refl

  found_type :
      str_of (text "type") (transaction_to_json r) ≡ some (transaction_type_to_string r.type)
  unfolding transaction_to_json find as_string text text_eq
  found_type = refl

  found_state :
      str_of (text "state") (transaction_to_json r) ≡ some (transaction_state_to_string r.state)
  unfolding transaction_to_json find as_string text text_eq
  found_state = refl

  found_from : opt_id_of (text "from") (transaction_to_json r) ≡ as_opt_id (account_id_value r.from)
  unfolding transaction_to_json find text text_eq
  found_from = refl

  found_to : opt_id_of (text "to") (transaction_to_json r) ≡ as_opt_id (account_id_value r.to)
  unfolding transaction_to_json find text text_eq
  found_to = refl

  found_amount : int_of (text "amount") (transaction_to_json r) ≡ some (pos r.amount.cents)
  unfolding transaction_to_json find as_integer text text_eq
  found_amount = refl

-- A record whose id is a uint64_t and whose account ids are below 2^63 is read back from its JSON
-- object, its time cut to milliseconds.
pub transaction_from_json-transaction_to_json :
    (r : TransactionRecord)
    → r.id < 2 ^ 64
    → IsSmall r.from
    → IsSmall r.to
    → transaction_from_json (transaction_to_json r)
      ≡ some (record r { timestamp = from_unix_ms (to_unix_ms r.timestamp) })
unfolding transaction_from_json
transaction_from_json-transaction_to_json r id_fits from_small to_small =
    rw
      (
        found_id r,
        found_ts r,
        found_type r,
        found_state r,
        found_from r,
        opt_id-account_id_value r.from from_small,
        found_to r,
        opt_id-account_id_value r.to to_small,
        found_amount r,
        type-ReadsBack r.type,
        state-ReadsBack r.state,
        to_uint64-to_int64 r.id id_fits,
      )
      refl

module _ (a : Account) where
  found_account_id : int_of (text "id") (account_to_json a) ≡ some (to_int64 a.id)
  unfolding account_to_json find as_integer text text_eq
  found_account_id = refl

  found_owner : int_of (text "owner") (account_to_json a) ≡ some (to_int64 a.owner_id)
  unfolding account_to_json find as_integer text text_eq
  found_owner = refl

  found_balance : int_of (text "balance") (account_to_json a) ≡ some (pos a.balance.cents)
  unfolding account_to_json find as_integer text text_eq
  found_balance = refl

  found_status :
      str_of (text "status") (account_to_json a) ≡ some (account_status_to_string a.status)
  unfolding account_to_json find as_string text text_eq
  found_status = refl

  found_version : int_of (text "version") (account_to_json a) ≡ some (to_int64 a.version)
  unfolding account_to_json find as_integer text text_eq
  found_version = refl

-- An account whose id, owner and version are below 2^63 is read back from its JSON object.
pub account_from_json-account_to_json :
    (a : Account)
    → a.id < 2 ^ 63
    → a.owner_id < 2 ^ 63
    → a.version < 2 ^ 63
    → account_from_json (account_to_json a) ≡ some a
unfolding account_from_json
account_from_json-account_to_json a id_small owner_small version_small =
    rw
      (
        found_account_id a,
        to_int64-small a.id id_small,
        found_owner a,
        to_int64-small a.owner_id owner_small,
        found_balance a,
        found_status a,
        found_version a,
        to_int64-small a.version version_small,
        status-ReadsBack a.status,
      )
      refl

to_int64-large : (n : ℕ) → 2 ^ 63 ≤ n → to_int64 n ≡ negsuc (2 ^ 64 - n - 1)
unfolding to_int64
to_int64-large n h = let large : ltb n (2 ^ 63) ≡ false = ground arith in rw large refl

-- An account whose id is 2^63 or more is written, but what is written is not read back.
pub account_from_json-large :
    (a : Account) → 2 ^ 63 ≤ a.id → account_from_json (account_to_json a) ≡ none
unfolding account_from_json
account_from_json-large a large = rw (found_account_id a, to_int64-large a.id large) refl
