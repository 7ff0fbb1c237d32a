-- ===== src/Persistence/Sqlite.antt =====
-- src/persistence/SqliteHelpers.h and SqliteHelpers.cpp: statements, bindings, and the readers of rows.
-- The SQLite library is a parameter: an engine with a database as its state.
pub mod AccountTable
pub mod Accounts
pub mod Repositories
pub mod Rows
use bank_managment_system.Prelude.{
  ℕ, zero, suc, ◌+◌, ◌==◌, Bool, true, false, if◌then◌else◌, Option, none, some, List, [], ◌∷◌,
  ◌++◌,
}
use bank_managment_system.Prelude.Int.{ℤ, pos}
use bank_managment_system.Prelude.Text.{Bytes, text}
use bank_managment_system.Prelude.Exec.{Throws, ok, throw, runtime_error, Exec}
use bank_managment_system.Domain.Types.{
  AccountId, role_from_string, account_status_from_string, transaction_type_from_string,
  transaction_state_from_string,
}
use bank_managment_system.Domain.Money.{make}
use bank_managment_system.Domain.Account.{Account}
use bank_managment_system.Domain.Transaction.{TransactionRecord}
use bank_managment_system.Domain.AuditEntry.{AuditEntry}
use bank_managment_system.Domain.Customer.{Customer}
use bank_managment_system.Persistence.Serializer.{to_int64, to_uint64}
use bank_managment_system.Persistence.Deserializer.{from_unix_ms}

-- A value that is bound, or stands in a column.
pub data Column : Type 0 where
  sql_null : Column
  sql_integer : ℤ → Column
  sql_text : Bytes → Column

abbrev pub Row : Type 0
Row = List Column

-- The library. `query` runs a prepared statement with its bound values by calls of sqlite3_step: the
-- rows that come before a step that gives no row, whether that step gives SQLITE_DONE, and the
-- database then. The last two convert a column as sqlite3_column_int64 and sqlite3_column_text do.
pub record Engine : Type 1 where
  pub Database : Type 0
  pub errmsg : Database → Bytes
  pub prepares : Bytes → Database → Bool
  pub binds : Bytes → ℕ → Column → Database → Bool
  pub query : Bytes → List (ℕ × Column) → Database → List Row × Bool × Database
  pub integer_of_text : Bytes → ℤ
  pub text_of_integer : ℤ → Bytes

-- A prepared statement: its text, and what is bound, the last binding last.
pub record Statement : Type 0 where
  pub sql : Bytes
  pub bound : List (ℕ × Column)

-- The column of a row; SQLite gives NULL for one out of range.
abbrev pub column_at : ℕ → Row → Column
column_at i [] = Column.sql_null
column_at zero (c ∷ row) = c
column_at (suc i) (c ∷ row) = column_at i row

-- The construction of a std::string from a C string stops at a zero byte.
unfoldable pub until_nul : Bytes → Bytes
until_nul [] = []
until_nul (c ∷ s) = if c == 0 then [] else c ∷ until_nul s

abbrev pub or_throw : {A B : Type 0} → Option A → Bytes → (A → Throws B) → Throws B
or_throw none message f = throw (runtime_error message)
or_throw (some a) message f = f a

abbrev pub on_ok : {A B : Type 0} → Throws A → (A → Throws B) → Throws B
on_ok (ok a) f = f a
on_ok (throw ex) f = throw ex

module _ (engine : Engine) where
  abbrev pub Sql : Type 0 → Type 0
  Sql A = Exec engine.Database A

  -- rc is SQLITE_OK, SQLITE_ROW or SQLITE_DONE, or an error.
  unfoldable pub expect_ok : Bool → Bytes → Sql (Unit {0})
  expect_ok true what db = (ok tt, db)
  expect_ok false what db =
      (throw (runtime_error (what ++ text " failed: " ++ engine.errmsg db)), db)

  -- The constructor of Statement.
  unfoldable pub prepare : Bytes → Bytes → Sql Statement
  prepare sql what db =
      if engine.prepares sql db
      then (ok (record { sql = sql; bound = [] }), db)
      else (throw (runtime_error (what ++ text " prepare failed: " ++ engine.errmsg db)), db)

  abbrev pub bind_column : Bytes → ℕ → Column → Statement → Sql Statement
  bind_column what i c s db =
      if engine.binds s.sql i c db
      then (ok (record s { bound = s.bound ++ (i, c) ∷ [] }), db)
      else (throw (runtime_error (what ++ text " failed: " ++ engine.errmsg db)), db)

  unfoldable pub bind_i64 : ℕ → ℤ → Statement → Sql Statement
  bind_i64 i z = bind_column (text "bind int64") i (Column.sql_integer z)

  unfoldable pub bind_text : ℕ → Bytes → Statement → Sql Statement
  bind_text i t = bind_column (text "bind text") i (Column.sql_text t)

  abbrev pub bind_null : ℕ → Statement → Sql Statement
  bind_null i = bind_column (text "bind null") i Column.sql_null

  unfoldable pub bind_integer_id : ℕ → Option AccountId → Statement → Sql Statement
  unfolding bind_i64
  bind_integer_id i none = bind_null i
  bind_integer_id i (some id) = bind_i64 i (to_int64 id)

  -- sqlite3_column_int64
  abbrev pub as_int64 : Column → ℤ
  as_int64 Column.sql_null = pos 0
  as_int64 (Column.sql_integer z) = z
  as_int64 (Column.sql_text t) = engine.integer_of_text t

  abbrev pub column_i64 : ℕ → Row → ℤ
  column_i64 i row = as_int64 (column_at i row)

  abbrev pub as_text : Column → Bytes
  as_text Column.sql_null = []
  as_text (Column.sql_integer z) = until_nul (engine.text_of_integer z)
  as_text (Column.sql_text t) = until_nul t

  abbrev pub column_text : ℕ → Row → Bytes
  column_text i row = as_text (column_at i row)

  unfoldable pub read_account : Row → Throws Account
  unfolding make
  read_account row = on_ok (make (column_i64 2 row)) λ balance.
      or_throw (account_status_from_string (column_text 3 row))
        (text "corrupt account row: unknown status")
        λ status. ok (record {
          id = to_uint64 (column_i64 0 row);
          owner_id = to_uint64 (column_i64 1 row);
          balance = balance;
          status = status;
          version = to_uint64 (column_i64 4 row);
        })

  unfoldable pub read_customer : Row → Throws Customer
  read_customer row =
      or_throw (role_from_string (column_text 5 row)) (text "corrupt customer row: unknown role")
        λ role. ok (record {
          id = to_uint64 (column_i64 0 row);
          name = column_text 1 row;
          pin_hash = record {
            algorithm = column_text 2 row;
            salt = column_text 3 row;
            digest = column_text 4 row;
          };
          role = role;
        })

  -- A column for an account that may be missing.
  abbrev pub as_account : Column → Option AccountId
  as_account Column.sql_null = none
  as_account c = some (to_uint64 (as_int64 c))

  unfoldable pub read_transaction : Row → Throws TransactionRecord
  unfolding make
  read_transaction row =
      or_throw (transaction_type_from_string (column_text 2 row)) (text "corrupt transaction row")
        λ type.
          or_throw (transaction_state_from_string (column_text 3 row))
            (text "corrupt transaction row")
            λ state. on_ok (make (column_i64 6 row)) λ amount. ok (record {
              id = to_uint64 (column_i64 0 row);
              timestamp = from_unix_ms (column_i64 1 row);
              type = type;
              state = state;
              from = as_account (column_at 4 row);
              to = as_account (column_at 5 row);
              amount = amount;
            })

  unfoldable pub read_audit : Row → AuditEntry
  read_audit row = record {
    id = to_uint64 (column_i64 0 row);
    timestamp = from_unix_ms (column_i64 1 row);
    actor_id = to_uint64 (column_i64 2 row);
    action = column_text 3 row;
    details = column_text 4 row;
  }
