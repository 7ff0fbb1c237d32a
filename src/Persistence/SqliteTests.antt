-- ===== src/Persistence/SqliteTests.antt =====
-- src/persistence/SqliteAccountRepository.cpp: runs over a table that is a function from its keys.
use bank_managment_system.Prelude.{
  ℕ, ◌==◌, ◌≡◌, ◌≢◌, refl, Bool, true, false, if◌then◌else◌, Option, none, some, List, [], ◌∷◌,
  arith,
}
use bank_managment_system.Prelude.Int.{ℤ, pos, negsuc}
use bank_managment_system.Prelude.Text.{Bytes, text}
use bank_managment_system.Persistence.InMemory.{in_memory_accounts}
use bank_managment_system.Persistence.Sqlite.{Column, sql_integer, Row, Engine}
use bank_managment_system.Persistence.Sqlite.Rows.{account_row, IsAccountRow}
use bank_managment_system.Persistence.Sqlite.Repositories.{
  find_account_sql, save_account_sql, remove_account_sql, sqlite_accounts,
}
use bank_managment_system.Persistence.Serializer.{to_int64}
use bank_managment_system.Domain.Account.{Account}
use bank_managment_system.Persistence.Sqlite.AccountTable.{rows_of, save_bindings, IsAccountTable}
use bank_managment_system.Persistence.Sqlite.Accounts.{
  AccountCall, call_accounts, Represents, sqlite_accounts-Refines,
}
use bank_managment_system.Persistence.Tests.{account_with}

abbrev same_int : ℤ → ℤ → Bool
same_int (pos m) (pos n) = m == n
same_int (negsuc m) (negsuc n) = m == n
same_int _ _ = false

same_int_refl : (z : ℤ) → same_int z z ≡ true
same_int_refl (pos n) = ground arith
same_int_refl (negsuc n) = ground arith

same_int_ne : (y z : ℤ) → y ≢ z → same_int y z ≡ false
same_int_ne (pos m) (pos n) ne = ground (arith, ne)
same_int_ne (negsuc m) (negsuc n) ne = ground (arith, ne)
same_int_ne (pos m) (negsuc n) ne = refl
same_int_ne (negsuc m) (pos n) ne = refl

-- A table, and what is put under a key.
abbrev Table : Type 0
Table = ℤ → Option Row

abbrev with_row : ℤ → Option Row → Table → Table
with_row key row t id = if same_int id key then row else t id

-- Only the statements of the account repository that name one account are understood: an upsert
-- binds five values, and of the other two a query begins with an S.
abbrev run_query : Bytes → List (ℕ × Column) → Table → List Row × Bool × Table
run_query (c ∷ _) ((_, sql_integer id) ∷ []) t =
    if c == b'S' then (rows_of (t id), true, t) else ([], true, with_row id none t)
run_query sql ((_, sql_integer id) ∷ (_, b) ∷ (_, c) ∷ (_, d) ∷ (_, e) ∷ []) t =
    ([], true, with_row id (some (sql_integer id ∷ b ∷ c ∷ d ∷ e ∷ [])) t)
run_query sql bound t = ([], false, t)

abbrev small_engine : Engine
small_engine = record {
  Database = Table;
  errmsg = λ t. [];
  prepares = λ sql t. true;
  binds = λ sql i c t. true;
  query = run_query;
  integer_of_text = λ s. pos 0;
  text_of_integer = λ z. [];
}

query_finds :
    (id : ℤ) (t : Table)
    → run_query find_account_sql ((1, sql_integer id) ∷ []) t ≡ (rows_of (t id), true, t)
unfolding text
query_finds id t = refl

query_saves :
    (a : Account) (t : Table)
    → run_query save_account_sql (save_bindings a) t
      ≡ ([], true, with_row (to_int64 a.id) (some (account_row a)) t)
unfolding text
query_saves a t = refl

query_removes :
    (id : ℤ) (t : Table)
    → run_query remove_account_sql ((1, sql_integer id) ∷ []) t ≡ ([], true, with_row id none t)
unfolding text
query_removes id t = refl

with_row_here : (id : ℤ) (row : Option Row) (t : Table) → with_row id row t id ≡ row
with_row_here id row t = rw (same_int_refl id) refl

with_row_elsewhere :
    (id other : ℤ) (row : Option Row) (t : Table) → other ≢ id → with_row id row t other ≡ t other
with_row_elsewhere id other row t ne = rw (same_int_ne other id ne) refl

abbrev small_table : IsAccountTable small_engine
small_table = record {
  row_of = λ t id. t id;
  has_customer = λ t id. same_int id (pos 3);
  prepares_find = λ t. refl;
  prepares_save = λ t. refl;
  prepares_remove = λ t. refl;
  binds_find = λ id t. refl;
  binds_save = λ i c t low high. refl;
  binds_remove = λ id t. refl;
  finds = query_finds;
  saves = λ a t h owned. rw (query_saves a t) (
    refl,
    with_row_here (to_int64 a.id) _ t,
    (λ other. with_row_elsewhere (to_int64 a.id) other _ t),
    λ owner. refl,
  );
  removes = λ id t.
      rw (query_removes id t) (
        refl,
        with_row_here id none t,
        (λ other. with_row_elsewhere id other none t),
        λ owner. refl,
      );
}

abbrev account_calls : List AccountCall
account_calls =
    AccountCall.saves (account_with 1)
    ∷ AccountCall.finds 1
    ∷ AccountCall.removes 1
    ∷ AccountCall.finds 1
    ∷ []

account_1-IsAccountRow : IsAccountRow (account_with 1)
account_1-IsAccountRow = record {
  id_fits = omega arith;
  owner_fits = omega arith;
  balance_fits = omega arith;
  version_fits = omega arith;
}

sqlite_accounts-Refines_example :
    ((call_accounts (sqlite_accounts small_engine) account_calls (λ id. none)).0
      ≡ (call_accounts in_memory_accounts account_calls []).0)
    × Represents small_engine small_table
        (λ id. same_int id (pos 3))
        (call_accounts (sqlite_accounts small_engine) account_calls (λ id. none)).1
        (call_accounts in_memory_accounts account_calls []).1
unfolding to_int64
sqlite_accounts-Refines_example =
    sqlite_accounts-Refines small_engine small_table account_calls (λ id. none)
      ((account_1-IsAccountRow, refl), (omega arith, (omega arith, (omega arith, tt)))) (λ id. refl)
