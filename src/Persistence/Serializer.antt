-- ===== src/Persistence/Serializer.antt =====
-- src/persistence/Serializer.cpp: records and accounts as JSON objects.
use bank_managment_system.Prelude.{ℕ, ◌+◌, ◌-◌, ◌/◌, ◌^◌, ltb, if◌then◌else◌, Option, none, some}
use bank_managment_system.Prelude.Int.{ℤ, pos, negsuc}
use bank_managment_system.Prelude.Text.{Bytes, text}
use bank_managment_system.Domain.Types.{
  AccountId, transaction_type_to_string, transaction_state_to_string, account_status_to_string,
}
use bank_managment_system.Domain.Account.{Account}
use bank_managment_system.Domain.Transaction.{TransactionRecord}
use bank_managment_system.Persistence.Json.{Value, Members, set_member, dump}

-- static_cast<int64_t>(uint64_t)
unfoldable pub to_int64 : ℕ → ℤ
to_int64 n = if ltb n (2 ^ 63) then pos n else negsuc (2 ^ 64 - n - 1)

-- static_cast<uint64_t>(int64_t)
unfoldable pub to_uint64 : ℤ → ℕ
to_uint64 (pos n) = n
to_uint64 (negsuc n) = 2 ^ 64 - n - 1

-- timeutil::to_unix_ms: a time is a number of nanoseconds; duration_cast cuts towards zero.
unfoldable pub to_unix_ms : ℤ → ℤ
to_unix_ms (pos n) = pos (n / 1_000_000)
to_unix_ms (negsuc n) = let ms = (n + 1) / 1_000_000 in if ltb 0 ms then negsuc (ms - 1) else pos 0

-- The lambda account_id.
abbrev pub account_id_value : Option AccountId → Value
account_id_value none = Value.null
account_id_value (some id) = Value.integer (to_int64 id)

-- The calls of set on the new object, one for each member, the last call outermost.
unfoldable pub transaction_to_json : TransactionRecord → Value
unfolding set_member
transaction_to_json r =
    let m1 = set_member (text "id") (Value.integer (to_int64 r.id)) Members.end in
    let m2 = set_member (text "ts") (Value.integer (to_unix_ms r.timestamp)) m1 in
    let m3 = set_member (text "type") (Value.string (transaction_type_to_string r.type)) m2 in
    let m4 = set_member (text "state") (Value.string (transaction_state_to_string r.state)) m3 in
    let m5 = set_member (text "from") (account_id_value r.from) m4 in
    let m6 = set_member (text "to") (account_id_value r.to) m5 in
    Value.object (set_member (text "amount") (Value.integer (pos r.amount.cents)) m6)

unfoldable pub account_to_json : Account → Value
unfolding set_member
account_to_json a =
    let m1 = set_member (text "id") (Value.integer (to_int64 a.id)) Members.end in
    let m2 = set_member (text "owner") (Value.integer (to_int64 a.owner_id)) m1 in
    let m3 = set_member (text "balance") (Value.integer (pos a.balance.cents)) m2 in
    let m4 = set_member (text "status") (Value.string (account_status_to_string a.status)) m3 in
    Value.object (set_member (text "version") (Value.integer (to_int64 a.version)) m4)

unfoldable pub serialize : TransactionRecord → Bytes
unfolding transaction_to_json dump
serialize r = dump (transaction_to_json r)

unfoldable pub serialize_account : Account → Bytes
unfolding account_to_json dump
serialize_account a = dump (account_to_json a)
