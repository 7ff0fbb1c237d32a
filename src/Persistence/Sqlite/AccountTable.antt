-- ===== src/Persistence/Sqlite/AccountTable.antt =====
-- src/persistence/SqliteAccountRepository.cpp: what a database with the table of the accounts does,
-- and what the calls of the repository come to on it.
use bank_managment_system.Prelude.{
  Bool, ℕ, ◌^◌, ◌<◌, ◌≤◌, ◌≡◌, ◌≢◌, refl, ap, sym, ◌∙◌, true, Option, none, some, List, [], ◌∷◌,
  arith,
}
use bank_managment_system.Prelude.Int.{ℤ, pos}
use bank_managment_system.Prelude.Text.{Bytes, text}
use bank_managment_system.Prelude.Exec.{ok}
use bank_managment_system.Domain.Types.{AccountId, account_status_to_string}
use bank_managment_system.Domain.Account.{Account}
use bank_managment_system.Persistence.Serializer.{to_int64, to_uint64}
use bank_managment_system.Persistence.Deserializer.RoundTrip.{to_uint64-to_int64}
use bank_managment_system.Persistence.Sqlite.{
  Column, sql_integer, sql_text, Row, Engine, Statement, expect_ok, prepare, bind_i64, bind_text,
}
use bank_managment_system.Persistence.Sqlite.Rows.{account_row, IsAccountRow, read_account-row}
use bank_managment_system.Persistence.Sqlite.Repositories.{
  find_account_sql, save_account_sql, remove_account_sql, step_once, step_write, find_account_row,
  save_account_row, remove_account_row,
}

-- The row under a key, if there is one, as the rows of a query.
abbrev pub rows_of : Option Row → List Row
rows_of none = []
rows_of (some row) = row ∷ []

-- The values of a row, each under the number of its parameter.
abbrev pub save_bindings : Account → List (ℕ × Column)
save_bindings a =
    (1, sql_integer (to_int64 a.id))
    ∷ (2, sql_integer (to_int64 a.owner_id))
    ∷ (3, sql_integer (pos a.balance.cents))
    ∷ (4, sql_text (account_status_to_string a.status))
    ∷ (5, sql_integer (to_int64 a.version))
    ∷ []

-- How a database with the table of the accounts answers the three statements that name one account,
-- if no call fails: a row is found by its key; the upsert replaces the row under its key or adds
-- it, if the customer that it refers to is in the table of the customers; the deletion removes the
-- row under its key. Both leave every other row and all customers.
pub record IsAccountTable (engine : Engine) : Type 0 where
  pub row_of : engine.Database → ℤ → Option Row
  pub has_customer : engine.Database → ℤ → Bool
  pub prepares_find : (db : engine.Database) → engine.prepares find_account_sql db ≡ true
  pub prepares_save : (db : engine.Database) → engine.prepares save_account_sql db ≡ true
  pub prepares_remove : (db : engine.Database) → engine.prepares remove_account_sql db ≡ true
  pub binds_find :
      (id : ℤ) (db : engine.Database) → engine.binds find_account_sql 1 (sql_integer id) db ≡ true
  pub binds_save :
      (i : ℕ) (c : Column) (db : engine.Database)
      → 1 ≤ i
      → i < 6
      → engine.binds save_account_sql i c db ≡ true
  pub binds_remove :
      (id : ℤ) (db : engine.Database) → engine.binds remove_account_sql 1 (sql_integer id) db ≡ true
  pub finds :
      (id : ℤ) (db : engine.Database)
      → engine.query find_account_sql ((1, sql_integer id) ∷ []) db
        ≡ (rows_of (row_of db id), true, db)
  pub saves :
      (a : Account) (db : engine.Database)
      → IsAccountRow a
      → has_customer db (to_int64 a.owner_id) ≡ true
      → let (rows, done, db') = engine.query save_account_sql (save_bindings a) db in
        (done ≡ true)
        × (row_of db' (to_int64 a.id) ≡ some (account_row a))
        × ((other : ℤ) → other ≢ to_int64 a.id → row_of db' other ≡ row_of db other)
        × ((owner : ℤ) → has_customer db' owner ≡ has_customer db owner)
  pub removes :
      (id : ℤ) (db : engine.Database)
      → let (rows, done, db') = engine.query remove_account_sql ((1, sql_integer id) ∷ []) db in
        (done ≡ true)
        × (row_of db' id ≡ none)
        × ((other : ℤ) → other ≢ id → row_of db' other ≡ row_of db other)
        × ((owner : ℤ) → has_customer db' owner ≡ has_customer db owner)

pub to_int64-ne : (m n : ℕ) → m < 2 ^ 64 → n < 2 ^ 64 → n ≢ m → to_int64 m ≢ to_int64 n
to_int64-ne m n m_fits n_fits ne e =
    ne (sym (sym (to_uint64-to_int64 m m_fits) ∙ ap to_uint64 e ∙ to_uint64-to_int64 n n_fits))

-- The row of an account, if there is one.
abbrev pub row_for : Option Account → Option Row
row_for none = none
row_for (some a) = some (account_row a)

module _ (engine : Engine) (table : IsAccountTable engine) where
  pub save_steps :
      (a : Account) (db : engine.Database)
      → save_account_row engine a db
        ≡ step_write engine
            (text "accounts.save")
            (record { sql = save_account_sql; bound = save_bindings a })
            db
  unfolding save_account_row prepare bind_i64 bind_text
  save_steps a db =
      let b : (i : ℕ) → 1 ≤ i → i < 6 → (c : Column) → engine.binds save_account_sql i c db ≡ true =
        λ i low high c. table.binds_save i c db low high in
      rw
        (
          table.prepares_save db,
          b 1 (omega arith) (omega arith) _,
          b 2 (omega arith) (omega arith) _,
          b 3 (omega arith) (omega arith) _,
          b 4 (omega arith) (omega arith) _,
          b 5 (omega arith) (omega arith) _,
        )
        refl

  pub remove_steps :
      (id : AccountId) (db : engine.Database)
      → remove_account_row engine id db
        ≡ step_write engine
            (text "accounts.remove")
            (record { sql = remove_account_sql; bound = (1, sql_integer (to_int64 id)) ∷ [] })
            db
  unfolding remove_account_row prepare bind_i64
  remove_steps id db = rw (table.prepares_remove db, table.binds_remove (to_int64 id) db) refl

  pub write_done :
      (what : Bytes) (s : Statement) (db : engine.Database)
      → (engine.query s.sql s.bound db).1 ≡ true
      → step_write engine what s db ≡ (ok tt, (engine.query s.sql s.bound db).2)
  unfolding step_write expect_ok
  write_done what s db e = rw e refl

  pub found_row :
      (id : AccountId) (db : engine.Database) (o : Option Account)
      → table.row_of db (to_int64 id) ≡ row_for o
      → ((a : Account) → o ≡ some a → IsAccountRow a)
      → find_account_row engine id db ≡ (ok o, db)
  unfolding find_account_row prepare bind_i64 step_once
  found_row id db none e h =
      rw
        (table.prepares_find db, table.binds_find (to_int64 id) db, table.finds (to_int64 id) db, e)
        refl
  found_row id db (some a) e h =
      rw
        (
          table.prepares_find db,
          table.binds_find (to_int64 id) db,
          table.finds (to_int64 id) db,
          e,
          read_account-row engine a (h a refl),
        )
        refl
