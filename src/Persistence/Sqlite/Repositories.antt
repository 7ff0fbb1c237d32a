-- ===== src/Persistence/Sqlite/Repositories.antt =====
-- src/persistence/Sqlite*Repository.cpp: the repositories over the engine.
use bank_managment_system.Prelude.{
  Bool, true, false, if◌then◌else◌, Option, none, some, is_some, List, [], ◌∷◌, ◌++◌, is_empty,
}
use bank_managment_system.Prelude.Int.{pos}
use bank_managment_system.Prelude.Text.{Bytes, text}
use bank_managment_system.Prelude.Exec.{Throws, ok, throw, runtime_error, pure, lift, ◌>>=◌}
use bank_managment_system.Domain.Types.{
  AccountId, CustomerId, role_to_string, account_status_to_string, transaction_type_to_string,
  transaction_state_to_string,
}
use bank_managment_system.Domain.Account.{Account}
use bank_managment_system.Domain.Transaction.{TransactionRecord}
use bank_managment_system.Domain.AuditEntry.{AuditEntry, AuditFilter}
use bank_managment_system.Domain.Customer.{Customer}
use bank_managment_system.Persistence.Serializer.{to_int64, to_unix_ms}
use bank_managment_system.Persistence.Repository.{
  AccountRepository, TransactionRepository, AuditRepository, CustomerRepository,
}
use bank_managment_system.Persistence.Sqlite.{
  Row, Engine, Statement, on_ok, Sql, expect_ok, prepare, bind_i64, bind_text, bind_integer_id,
  read_account, read_customer, read_transaction, read_audit,
}

-- The rows of a loop that stops at the first step that gives no row, read one after the other.
unfoldable pub read_rows : {A : Type 0} → (Row → Throws A) → List Row → Throws (List A)
read_rows read [] = ok []
read_rows read (row ∷ rows) =
    let later = read_rows read rows in on_ok (read row) λ a. on_ok later λ out. ok (a ∷ out)

-- The statements of the account repository that name one account.
abbrev pub find_account_sql : Bytes
find_account_sql =
    text "SELECT id, owner_id, balance_cents, status, version FROM accounts WHERE id = ?1;"

abbrev pub save_account_sql : Bytes
save_account_sql =
    text
      "INSERT INTO accounts (id, owner_id, balance_cents, status, version) VALUES (?1, ?2, ?3, ?4, ?5) ON CONFLICT(id) DO UPDATE SET owner_id=excluded.owner_id, balance_cents=excluded.balance_cents, status=excluded.status, version=excluded.version;"

abbrev pub remove_account_sql : Bytes
remove_account_sql = text "DELETE FROM accounts WHERE id = ?1;"

-- The clauses of the query of find, and their text.
abbrev pub clause : Bool → Bytes → List Bytes
clause true t = t ∷ []
clause false t = []

abbrev pub clauses_of : AuditFilter → List Bytes
clauses_of f =
    clause (is_some f.action) (text "action = ?1")
    ++ clause (is_some f.actor) (text "actor_id = ?2")
    ++ clause (is_some f.since) (text "timestamp_ms >= ?3")

abbrev pub joined : List Bytes → Bytes
joined [] = []
joined (c ∷ []) = c
joined (c ∷ d ∷ rest) = c ++ (text " AND " ++ joined (d ∷ rest))

abbrev pub find_sql : AuditFilter → Bytes
find_sql f =
    text "SELECT id, timestamp_ms, actor_id, action, details FROM audit_log"
    ++ (if is_empty (clauses_of f) then [] else text " WHERE " ++ joined (clauses_of f))
    ++ text " ORDER BY timestamp_ms;"

module _ (engine : Engine) where
  -- One step of a statement that is to give one row at most.
  abbrev pub first_row : Bytes → List Row × Bool × engine.Database → Throws (Option Row)
  first_row what (row ∷ _, _, _) = ok (some row)
  first_row what ([], true, db) = ok none
  first_row what ([], false, db) =
      throw (runtime_error (what ++ text " failed: " ++ engine.errmsg db))

  unfoldable pub step_once : Bytes → Statement → Sql engine (Option Row)
  step_once what s db = let out = engine.query s.sql s.bound db in (first_row what out, out.2)

  -- One step of a statement that changes the database, and its check.
  unfoldable pub step_write : Bytes → Statement → Sql engine (Unit {0})
  unfolding expect_ok
  step_write what s db =
      let (rows, done, db') = engine.query s.sql s.bound db in expect_ok engine done what db'

  -- The loop over all rows. What the last step gave is not looked at.
  unfoldable pub step_all : {A : Type 0} → (Row → Throws A) → Statement → Sql engine (List A)
  unfolding read_rows
  step_all read s db =
      let (rows, done, db') = engine.query s.sql s.bound db in (read_rows read rows, db')

  abbrev pub read_found : {A : Type 0} → (Row → Throws A) → Option Row → Throws (Option A)
  read_found read none = ok none
  read_found read (some row) = on_ok (read row) (λ a. ok (some a))

  unfoldable pub find_account_row : AccountId → Sql engine (Option Account)
  unfolding step_once read_account prepare bind_i64
  find_account_row id = do
    s ← prepare engine find_account_sql (text "accounts.find")
    s ← bind_i64 engine 1 (to_int64 id) s
    row ← step_once (text "accounts.find") s
    lift (read_found (read_account engine) row)

  unfoldable pub all_account_rows : Sql engine (List Account)
  unfolding step_all read_account prepare
  all_account_rows = do
    s ←
        prepare engine
          (text "SELECT id, owner_id, balance_cents, status, version FROM accounts ORDER BY id;")
          (text "accounts.all")
    step_all (read_account engine) s

  unfoldable pub save_account_row : Account → Sql engine (Unit {0})
  unfolding step_write prepare bind_i64 bind_text
  save_account_row a = do
    s ← prepare engine save_account_sql (text "accounts.save")
    s ← bind_i64 engine 1 (to_int64 a.id) s
    s ← bind_i64 engine 2 (to_int64 a.owner_id) s
    s ← bind_i64 engine 3 (pos a.balance.cents) s
    s ← bind_text engine 4 (account_status_to_string a.status) s
    s ← bind_i64 engine 5 (to_int64 a.version) s
    step_write (text "accounts.save") s

  unfoldable pub remove_account_row : AccountId → Sql engine (Unit {0})
  unfolding step_write prepare bind_i64
  remove_account_row id = do
    s ← prepare engine remove_account_sql (text "accounts.remove")
    s ← bind_i64 engine 1 (to_int64 id) s
    step_write (text "accounts.remove") s

  abbrev pub sqlite_accounts : AccountRepository
  sqlite_accounts = record {
    State = engine.Database;
    find_by_id = find_account_row;
    all = all_account_rows;
    save = save_account_row;
    remove = remove_account_row;
  }

  unfoldable pub append_transaction_row : TransactionRecord → Sql engine (Unit {0})
  unfolding step_write prepare bind_i64 bind_text bind_integer_id
  append_transaction_row r = do
    s ←
        prepare engine
          (text
            "INSERT INTO transactions (id, timestamp_ms, type, state, from_id, to_id, amount_cents) VALUES (?1, ?2, ?3, ?4, ?5, ?6, ?7);")
          (text "transactions.append")
    s ← bind_i64 engine 1 (to_int64 r.id) s
    s ← bind_i64 engine 2 (to_unix_ms r.timestamp) s
    s ← bind_text engine 3 (transaction_type_to_string r.type) s
    s ← bind_text engine 4 (transaction_state_to_string r.state) s
    s ← bind_integer_id engine 5 r.from s
    s ← bind_integer_id engine 6 r.to s
    s ← bind_i64 engine 7 (pos r.amount.cents) s
    step_write (text "transactions.append") s

  unfoldable pub transaction_rows_for : AccountId → Sql engine (List TransactionRecord)
  unfolding step_all read_transaction prepare bind_i64
  transaction_rows_for id = do
    s ←
        prepare engine
          (text
            "SELECT id, timestamp_ms, type, state, from_id, to_id, amount_cents FROM transactions WHERE from_id = ?1 OR to_id = ?1 ORDER BY id;")
          (text "transactions.for_account")
    s ← bind_i64 engine 1 (to_int64 id) s
    step_all (read_transaction engine) s

  unfoldable pub all_transaction_rows : Sql engine (List TransactionRecord)
  unfolding step_all read_transaction prepare
  all_transaction_rows = do
    s ←
        prepare engine
          (text
            "SELECT id, timestamp_ms, type, state, from_id, to_id, amount_cents FROM transactions ORDER BY id;")
          (text "transactions.all")
    step_all (read_transaction engine) s

  abbrev pub sqlite_transactions : TransactionRepository
  sqlite_transactions = record {
    State = engine.Database;
    append = append_transaction_row;
    for_account = transaction_rows_for;
    all = all_transaction_rows;
  }

  unfoldable pub append_audit_row : AuditEntry → Sql engine (Unit {0})
  unfolding step_write prepare bind_i64 bind_text
  append_audit_row e = do
    s ←
        prepare engine
          (text
            "INSERT INTO audit_log (id, timestamp_ms, actor_id, action, details) VALUES (?1, ?2, ?3, ?4, ?5);")
          (text "audit.append")
    s ← bind_i64 engine 1 (to_int64 e.id) s
    s ← bind_i64 engine 2 (to_unix_ms e.timestamp) s
    s ← bind_i64 engine 3 (to_int64 e.actor_id) s
    s ← bind_text engine 4 e.action s
    s ← bind_text engine 5 e.details s
    step_write (text "audit.append") s

  abbrev pub bind_if :
      {A : Type 0}
      → (A → Statement → Sql engine Statement)
      → Option A
      → Statement
      → Sql engine Statement
  bind_if bind none s = pure s
  bind_if bind (some a) s = bind a s

  unfoldable pub find_audit_rows : AuditFilter → Sql engine (List AuditEntry)
  unfolding step_all read_audit prepare bind_i64 bind_text
  find_audit_rows f = do
    s ← prepare engine (find_sql f) (text "audit.find")
    s ← bind_if (bind_text engine 1) f.action s
    s ← bind_if (λ actor. bind_i64 engine 2 (to_int64 actor)) f.actor s
    s ← bind_if (λ since. bind_i64 engine 3 (to_unix_ms since)) f.since s
    step_all (λ row. ok (read_audit engine row)) s

  abbrev pub sqlite_audit : AuditRepository
  sqlite_audit = record {
    State = engine.Database;
    append = append_audit_row;
    find = find_audit_rows;
  }

  unfoldable pub find_customer_row : CustomerId → Sql engine (Option Customer)
  unfolding step_once read_customer prepare bind_i64
  find_customer_row id = do
    s ←
        prepare engine
          (text
            "SELECT id, name, pin_algorithm, pin_salt, pin_digest, role FROM customers WHERE id = ?1;")
          (text "customers.find")
    s ← bind_i64 engine 1 (to_int64 id) s
    row ← step_once (text "customers.find") s
    lift (read_found (read_customer engine) row)

  unfoldable pub save_customer_row : Customer → Sql engine (Unit {0})
  unfolding step_write prepare bind_i64 bind_text
  save_customer_row c = do
    s ←
        prepare engine
          (text
            "INSERT INTO customers (id, name, pin_algorithm, pin_salt, pin_digest, role) VALUES (?1, ?2, ?3, ?4, ?5, ?6) ON CONFLICT(id) DO UPDATE SET name=excluded.name, pin_algorithm=excluded.pin_algorithm, pin_salt=excluded.pin_salt, pin_digest=excluded.pin_digest, role=excluded.role;")
          (text "customers.save")
    s ← bind_i64 engine 1 (to_int64 c.id) s
    s ← bind_text engine 2 c.name s
    s ← bind_text engine 3 c.pin_hash.algorithm s
    s ← bind_text engine 4 c.pin_hash.salt s
    s ← bind_text engine 5 c.pin_hash.digest s
    s ← bind_text engine 6 (role_to_string c.role) s
    step_write (text "customers.save") s

  abbrev pub sqlite_customers : CustomerRepository
  sqlite_customers = record {
    State = engine.Database;
    find_by_id = find_customer_row;
    save = save_customer_row;
  }
