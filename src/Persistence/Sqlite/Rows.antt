-- ===== src/Persistence/Sqlite/Rows.antt =====
-- src/persistence/SqliteHelpers.cpp: the rows that the repositories write are read back.
use bank_managment_system.Prelude.{
  ℕ, ◌^◌, ◌<◌, ◌==◌, ◌≡◌, ◌≢◌, refl, ap, Option, none, some, [], ◌∷◌, All, arith, false,
}
use bank_managment_system.Prelude.Int.{pos}
use bank_managment_system.Prelude.Text.{Bytes, text}
use bank_managment_system.Prelude.Exec.{ok}
use bank_managment_system.Domain.Types.{
  AccountId, AccountStatus, Role, TransactionType, TransactionState, role_to_string,
  account_status_to_string, transaction_type_to_string, transaction_state_to_string,
}
use bank_managment_system.Domain.Types.Names.{
  type-ReadsBack, state-ReadsBack, status-ReadsBack, role-ReadsBack,
}
use bank_managment_system.Domain.Account.{Account}
use bank_managment_system.Domain.Transaction.{TransactionRecord}
use bank_managment_system.Domain.AuditEntry.{AuditEntry}
use bank_managment_system.Domain.Customer.{Customer}
use bank_managment_system.Persistence.Serializer.{to_int64, to_unix_ms}
use bank_managment_system.Persistence.Deserializer.{from_unix_ms}
use bank_managment_system.Persistence.Deserializer.RoundTrip.{to_uint64-to_int64}
use bank_managment_system.Persistence.Deserializer.Lines.{as_stored}
use bank_managment_system.Persistence.Sqlite.{
  Column, sql_null, sql_integer, sql_text, Row, Engine, until_nul, as_account, read_account,
  read_customer, read_transaction, read_audit,
}

-- The rows as they are bound.
abbrev pub account_row : Account → Row
account_row a =
    sql_integer (to_int64 a.id)
    ∷ sql_integer (to_int64 a.owner_id)
    ∷ sql_integer (pos a.balance.cents)
    ∷ sql_text (account_status_to_string a.status)
    ∷ sql_integer (to_int64 a.version)
    ∷ []

abbrev pub id_column : Option AccountId → Column
id_column none = sql_null
id_column (some id) = sql_integer (to_int64 id)

abbrev pub transaction_row : TransactionRecord → Row
transaction_row r =
    sql_integer (to_int64 r.id)
    ∷ sql_integer (to_unix_ms r.timestamp)
    ∷ sql_text (transaction_type_to_string r.type)
    ∷ sql_text (transaction_state_to_string r.state)
    ∷ id_column r.from
    ∷ id_column r.to
    ∷ sql_integer (pos r.amount.cents)
    ∷ []

abbrev pub customer_row : Customer → Row
customer_row c =
    sql_integer (to_int64 c.id)
    ∷ sql_text c.name
    ∷ sql_text c.pin_hash.algorithm
    ∷ sql_text c.pin_hash.salt
    ∷ sql_text c.pin_hash.digest
    ∷ sql_text (role_to_string c.role)
    ∷ []

abbrev pub audit_row : AuditEntry → Row
audit_row e =
    sql_integer (to_int64 e.id)
    ∷ sql_integer (to_unix_ms e.timestamp)
    ∷ sql_integer (to_int64 e.actor_id)
    ∷ sql_text e.action
    ∷ sql_text e.details
    ∷ []

-- A text without a zero byte.
abbrev pub HasNoNul : Bytes → Type 0
HasNoNul s = All (λ (c : ℕ). c ≢ 0) s

until_nul-whole : (s : Bytes) → HasNoNul s → until_nul s ≡ s
unfolding until_nul
until_nul-whole [] h = refl
until_nul-whole (c ∷ s) h =
    let other : (c == 0) ≡ false = ground (arith, h.0) in
    rw other (ap (λ t. c ∷ t) (until_nul-whole s h.1))

status-whole :
    (s : AccountStatus) → until_nul (account_status_to_string s) ≡ account_status_to_string s
unfolding until_nul account_status_to_string text
status-whole AccountStatus.active = refl
status-whole _ = refl

role-whole : (r : Role) → until_nul (role_to_string r) ≡ role_to_string r
unfolding until_nul role_to_string text
role-whole Role.customer = refl
role-whole _ = refl

type-whole :
    (t : TransactionType) → until_nul (transaction_type_to_string t) ≡ transaction_type_to_string t
unfolding until_nul transaction_type_to_string text
type-whole TransactionType.deposit = refl
type-whole _ = refl

state-whole :
    (s : TransactionState)
    → until_nul (transaction_state_to_string s) ≡ transaction_state_to_string s
unfolding until_nul transaction_state_to_string text
state-whole TransactionState.pending = refl
state-whole _ = refl

-- The numbers of an account as uint64_t, its balance as int64_t.
pub record IsAccountRow (a : Account) : Type 0 where
  pub id_fits : a.id < 2 ^ 64
  pub owner_fits : a.owner_id < 2 ^ 64
  pub balance_fits : a.balance.cents < 2 ^ 63
  pub version_fits : a.version < 2 ^ 64

abbrev pub FitsId : Option AccountId → Type 0
FitsId none = Unit
FitsId (some id) = id < 2 ^ 64

module _ (engine : Engine) where
  pub read_account-row : (a : Account) → IsAccountRow a → read_account engine (account_row a) ≡ ok a
  unfolding read_account
  read_account-row a h =
      rw
        (
          status-whole a.status,
          status-ReadsBack a.status,
          to_uint64-to_int64 a.id h.id_fits,
          to_uint64-to_int64 a.owner_id h.owner_fits,
          to_uint64-to_int64 a.version h.version_fits,
        )
        refl

  id_column-account : (o : Option AccountId) → FitsId o → as_account engine (id_column o) ≡ o
  id_column-account none h = refl
  id_column-account (some id) h = rw (to_uint64-to_int64 id h) refl

  read_transaction-row :
      (r : TransactionRecord)
      → r.id < 2 ^ 64
      → FitsId r.from
      → FitsId r.to
      → read_transaction engine (transaction_row r) ≡ ok (as_stored r)
  unfolding read_transaction
  read_transaction-row r id_fits from_fits to_fits =
      rw
        (
          type-whole r.type,
          type-ReadsBack r.type,
          state-whole r.state,
          state-ReadsBack r.state,
          to_uint64-to_int64 r.id id_fits,
          id_column-account r.from from_fits,
          id_column-account r.to to_fits,
        )
        refl

  read_customer-row :
      (c : Customer)
      → c.id < 2 ^ 64
      → HasNoNul c.name
      → HasNoNul c.pin_hash.algorithm
      → HasNoNul c.pin_hash.salt
      → HasNoNul c.pin_hash.digest
      → read_customer engine (customer_row c) ≡ ok c
  unfolding read_customer
  read_customer-row c id_fits name algorithm salt digest =
      rw
        (
          role-whole c.role,
          role-ReadsBack c.role,
          to_uint64-to_int64 c.id id_fits,
          until_nul-whole c.name name,
          until_nul-whole c.pin_hash.algorithm algorithm,
          until_nul-whole c.pin_hash.salt salt,
          until_nul-whole c.pin_hash.digest digest,
        )
        refl

  read_audit-row :
      (e : AuditEntry)
      → e.id < 2 ^ 64
      → e.actor_id < 2 ^ 64
      → HasNoNul e.action
      → HasNoNul e.details
      → read_audit engine (audit_row e)
        ≡ record e { timestamp = from_unix_ms (to_unix_ms e.timestamp) }
  unfolding read_audit
  read_audit-row e id_fits actor_fits action details =
      rw
        (
          to_uint64-to_int64 e.id id_fits,
          to_uint64-to_int64 e.actor_id actor_fits,
          until_nul-whole e.action action,
          until_nul-whole e.details details,
        )
        refl
