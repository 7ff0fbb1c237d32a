-- ===== src/Persistence/Deserializer/Lines.antt =====
-- src/persistence/Serializer.cpp: what is read of the text that serialize writes.
use bank_managment_system.Prelude.{
  ℕ, ◌+◌, ◌/◌, ◌^◌, ◌<◌, ◌≡◌, ◌≢◌, ap, ◌∙◌, ltb, true, Option, none, some, arith, Bool-cases, inl,
  inr,
}
use bank_managment_system.Prelude.Int.{ℤ, pos, negsuc}
use bank_managment_system.Prelude.Text.{text}
use bank_managment_system.Domain.Types.{AccountId}
use bank_managment_system.Domain.Account.{Account}
use bank_managment_system.Domain.Transaction.{TransactionRecord}
use bank_managment_system.Persistence.Json.{Value, Members, set_member}
use bank_managment_system.Persistence.Parser.Numbers.{IsInt}
use bank_managment_system.Persistence.Parser.Readable.{IsReadable}
use bank_managment_system.Persistence.Parser.Sound.{set_member-HasReadable}
use bank_managment_system.Persistence.Parser.RoundTrip.{parse-dump}
use bank_managment_system.Persistence.Serializer.{
  to_int64, to_unix_ms, account_id_value, transaction_to_json, account_to_json, serialize,
  serialize_account,
}
use bank_managment_system.Persistence.Deserializer.{
  given, from_unix_ms, transaction_from_json, account_from_json, deserialize_transaction,
  deserialize_account,
}
use bank_managment_system.Persistence.Deserializer.RoundTrip.{
  IsSmall, transaction_from_json-transaction_to_json, account_from_json-account_to_json,
}

-- The records whose text can be read. The id 2^63 is written as the least int64_t.
pub record IsReadBack (r : TransactionRecord) : Type 0 where
  pub id_fits : r.id < 2 ^ 64
  pub id_readable : r.id ≢ 2 ^ 63
  pub time_fits : IsInt r.timestamp
  pub from_small : IsSmall r.from
  pub to_small : IsSmall r.to
  pub amount_fits : r.amount.cents < 2 ^ 63

-- The record that is read: its time is cut to milliseconds.
abbrev pub as_stored : TransactionRecord → TransactionRecord
as_stored r = record r { timestamp = from_unix_ms (to_unix_ms r.timestamp) }

to_int64-IsInt : (n : ℕ) → n < 2 ^ 64 → n ≢ 2 ^ 63 → IsInt (to_int64 n)
unfolding to_int64
to_int64-IsInt n h other = elim (Bool-cases (ltb n (2 ^ 63))) [
  | inl small ↦ rw small (ground arith)
  | inr large ↦ rw large (ground arith)
]

to_unix_ms-IsInt : (z : ℤ) → IsInt z → IsInt (to_unix_ms z)
unfolding to_unix_ms
to_unix_ms-IsInt (pos n) h = omega arith
to_unix_ms-IsInt (negsuc n) h = elim (Bool-cases (ltb 0 ((n + 1) / 1_000_000))) [
  | inl some_ms ↦ rw some_ms (ground arith)
  | inr no_ms ↦ rw no_ms (omega arith)
]

account_id_value-IsReadable : (o : Option AccountId) → IsSmall o → IsReadable (account_id_value o)
unfolding to_int64
account_id_value-IsReadable none h = tt
account_id_value-IsReadable (some id) h =
    let small : ltb id (2 ^ 63) ≡ true = ground arith in rw small h

transaction_to_json-IsReadable :
    (r : TransactionRecord) → IsReadBack r → IsReadable (transaction_to_json r)
unfolding transaction_to_json
transaction_to_json-IsReadable r h = set_member-HasReadable _ _ _ h.amount_fits (
    set_member-HasReadable _ _ _ (account_id_value-IsReadable r.to h.to_small) (
      set_member-HasReadable _ _ _ (account_id_value-IsReadable r.from h.from_small) (
        set_member-HasReadable _ _ _ tt (
          set_member-HasReadable _ _ _ tt (
            set_member-HasReadable (text "ts") (Value.integer (to_unix_ms r.timestamp))
              (set_member (text "id") (Value.integer (to_int64 r.id)) Members.end)
              (to_unix_ms-IsInt r.timestamp h.time_fits)
              (set_member-HasReadable (text "id") (Value.integer (to_int64 r.id)) Members.end
                (to_int64-IsInt r.id h.id_fits h.id_readable) tt))))))

-- The text of a record is read back, its time cut to milliseconds, if its id is a uint64_t other
-- than 2^63, its account ids are below 2^63, its amount is below 2^63, and its time is an int64_t
-- above the least.
pub deserialize_transaction-serialize :
    (r : TransactionRecord)
    → IsReadBack r
    → deserialize_transaction (serialize r) ≡ some (as_stored r)
unfolding deserialize_transaction serialize
deserialize_transaction-serialize r h =
    ap (λ v. given v transaction_from_json)
      (parse-dump (transaction_to_json r) (transaction_to_json-IsReadable r h))
    ∙ transaction_from_json-transaction_to_json r h.id_fits h.from_small h.to_small

pub to_int64_small : (n : ℕ) → n < 2 ^ 63 → IsInt (to_int64 n)
to_int64_small n h = to_int64-IsInt n (omega arith) (λ e. omega arith)

pub account_to_json-IsReadable :
    (a : Account)
    → a.id < 2 ^ 63
    → a.owner_id < 2 ^ 63
    → a.balance.cents < 2 ^ 63
    → a.version < 2 ^ 63
    → IsReadable (account_to_json a)
unfolding account_to_json
account_to_json-IsReadable a id_small owner_small balance_fits version_small =
    set_member-HasReadable _ _ _ (to_int64_small a.version version_small) (
      set_member-HasReadable _ _ _ tt (
        set_member-HasReadable _ _ _ balance_fits (
          set_member-HasReadable (text "owner") (Value.integer (to_int64 a.owner_id))
            (set_member (text "id") (Value.integer (to_int64 a.id)) Members.end)
            (to_int64_small a.owner_id owner_small)
            (set_member-HasReadable (text "id") (Value.integer (to_int64 a.id)) Members.end
              (to_int64_small a.id id_small) tt))))

-- The text of an account is read back, if its id, owner, balance and version are below 2^63.
pub deserialize_account-serialize_account :
    (a : Account)
    → a.id < 2 ^ 63
    → a.owner_id < 2 ^ 63
    → a.balance.cents < 2 ^ 63
    → a.version < 2 ^ 63
    → deserialize_account (serialize_account a) ≡ some a
unfolding deserialize_account serialize_account
deserialize_account-serialize_account a id_small owner_small balance_fits version_small =
    ap (λ v. given v account_from_json)
      (parse-dump (account_to_json a)
        (account_to_json-IsReadable a id_small owner_small balance_fits version_small))
    ∙ account_from_json-account_to_json a id_small owner_small version_small
