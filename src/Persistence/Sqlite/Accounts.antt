-- ===== src/Persistence/Sqlite/Accounts.antt =====
-- src/persistence/SqliteAccountRepository.cpp: against the in-memory repository, over a database
-- whose account table has the id as its key.
use bank_managment_system.Prelude.{
  Bool, true, ◌^◌, ◌<◌, ◌==◌, ◌≡◌, ◌≢◌, refl, ap, sym, subst, ◌∙◌, Bool-cases, inl, inr, Option,
  none, some, List, [], ◌∷◌, All, arith,
}
use bank_managment_system.Prelude.Int.{ℤ}
use bank_managment_system.Prelude.Text.{text}
use bank_managment_system.Prelude.Exec.{Throws, Exec, pure, ◌>>◌}
use bank_managment_system.Prelude.OrderedMap.{
  lookup, insert_or_assign, erase, IsSorted, insert-IsSorted, erase-IsSorted, lookup-insert_self,
  lookup-insert_ne, lookup-erase,
}
use bank_managment_system.Domain.Types.{AccountId}
use bank_managment_system.Domain.Account.{Account}
use bank_managment_system.Persistence.Repository.{AccountRepository}
use bank_managment_system.Persistence.InMemory.{Accounts, in_memory_accounts}
use bank_managment_system.Persistence.Serializer.{to_int64}
use bank_managment_system.Persistence.Sqlite.{sql_integer, Engine}
use bank_managment_system.Persistence.Sqlite.Rows.{IsAccountRow}
use bank_managment_system.Persistence.Sqlite.Repositories.{
  save_account_sql, remove_account_sql, sqlite_accounts,
}
use bank_managment_system.Persistence.Sqlite.AccountTable.{
  save_bindings, IsAccountTable, to_int64-ne, save_steps, remove_steps, write_done, row_for,
  found_row,
}

-- The calls of a repository that name one account, over any repository.
pub data AccountCall : Type 0 where
  finds : AccountId → AccountCall
  saves : Account → AccountCall
  removes : AccountId → AccountCall

module _ (r : AccountRepository) where
  abbrev pub call_account : AccountCall → Exec r.State (Option Account)
  call_account (finds id) = r.find_by_id id
  call_account (saves a) = r.save a >> pure none
  call_account (removes id) = r.remove id >> pure none

  abbrev pub call_accounts : List AccountCall → r.State → List (Throws (Option Account)) × r.State
  call_accounts [] s = ([], s)
  call_accounts (c ∷ cs) s =
      let (result, s') = call_account c s in
      let (results, s'') = call_accounts cs s' in (result ∷ results, s'')

-- The numbers of a call as uint64_t, with the owner of an account that is saved among the customers.
abbrev pub FitsCall : (ℤ → Bool) → AccountCall → Type 0
FitsCall customers (finds id) = id < 2 ^ 64
FitsCall customers (saves a) = IsAccountRow a × (customers (to_int64 a.owner_id) ≡ true)
FitsCall customers (removes id) = id < 2 ^ 64

module _ (engine : Engine) (table : IsAccountTable engine) (customers : ℤ → Bool) where
  -- The table holds the accounts of the map, a row for each, beside these customers.
  pub record Represents (db : engine.Database) (m : Accounts) : Type 0 where
    pub sorted : IsSorted m
    pub rows :
        (id : AccountId) → id < 2 ^ 64 → table.row_of db (to_int64 id) ≡ row_for (lookup id m)
    pub numbers : (id : AccountId) (a : Account) → lookup id m ≡ some a → IsAccountRow a
    pub same_customers : (owner : ℤ) → table.has_customer db owner ≡ customers owner

  saved-Represents :
      (a : Account) (db : engine.Database) (m : Accounts)
      → IsAccountRow a
      → customers (to_int64 a.owner_id) ≡ true
      → Represents db m
      → Represents
          (engine.query save_account_sql (save_bindings a) db).2
          (insert_or_assign a.id a m)
  saved-Represents a db m h owned r =
      let (_, here, elsewhere, kept) =
        table.saves a db h (r.same_customers (to_int64 a.owner_id) ∙ owned) in
      record {
        sorted = insert-IsSorted a.id a m r.sorted;
        rows = λ id id_fits. elim (Bool-cases (a.id == id)) [
          | inl same ↦
              let e : a.id ≡ id = ground (arith, same) in
              subst
                (λ n.
                  table.row_of (engine.query save_account_sql (save_bindings a) db).2 (to_int64 n)
                  ≡ row_for (lookup n (insert_or_assign a.id a m)))
                e (here ∙ sym (ap row_for (lookup-insert_self a.id a m)))
          | inr other ↦
              let ne : a.id ≢ id = λ e. ground (arith, other) in
              elsewhere (to_int64 id) (to_int64-ne id a.id id_fits h.id_fits ne)
              ∙ r.rows id id_fits
              ∙ sym (ap row_for (lookup-insert_ne a.id id a m ne))
        ];
        numbers = λ id b found. elim (Bool-cases (a.id == id)) [
          | inl same ↦
              let e : a.id ≡ id = ground (arith, same) in
              let stored = lookup-insert_self a.id a m in
              let same_account : a ≡ b = cc in subst IsAccountRow same_account h
          | inr other ↦
              r.numbers id b
                (sym (lookup-insert_ne a.id id a m (λ e. ground (arith, other))) ∙ found)
        ];
        same_customers = λ owner. kept owner ∙ r.same_customers owner;
      }

  removed-Represents :
      (id : AccountId) (db : engine.Database) (m : Accounts)
      → id < 2 ^ 64
      → Represents db m
      → Represents
          (engine.query remove_account_sql ((1, sql_integer (to_int64 id)) ∷ []) db).2
          (erase id m)
  removed-Represents id db m fits r =
      let (_, here, elsewhere, unchanged) = table.removes (to_int64 id) db in
      record {
        sorted = erase-IsSorted id m r.sorted;
        rows = λ j j_fits. elim (Bool-cases (id == j)) [
          | inl same ↦
              let e : id ≡ j = ground (arith, same) in
              let gone : lookup id (erase id m) ≡ none =
                ground (arith, lookup-erase id id m r.sorted) in
              subst
                (λ n.
                  table.row_of
                    (engine.query remove_account_sql ((1, sql_integer (to_int64 id)) ∷ []) db).2
                    (to_int64 n)
                  ≡ row_for (lookup n (erase id m)))
                e (here ∙ sym (ap row_for gone))
          | inr other ↦
              let kept : lookup j (erase id m) ≡ lookup j m =
                rw (lookup-erase id j m r.sorted, other) refl in
              elsewhere (to_int64 j) (to_int64-ne j id j_fits fits (λ e. ground (arith, other)))
              ∙ r.rows j j_fits
              ∙ sym (ap row_for kept)
        ];
        numbers = λ j b found. elim (Bool-cases (id == j)) [
          | inl same ↦
              let gone : lookup j (erase id m) ≡ none =
                rw (lookup-erase id j m r.sorted, same) refl in
              absurd cc
          | inr other ↦
              let kept : lookup j (erase id m) ≡ lookup j m =
                rw (lookup-erase id j m r.sorted, other) refl in
              r.numbers j b (sym kept ∙ found)
        ];
        same_customers = λ owner. unchanged owner ∙ r.same_customers owner;
      }

  -- What a call does to both repositories.
  abbrev Same :
      Throws (Option Account) × engine.Database → Throws (Option Account) × Accounts → Type 0
  Same out in_memory = (out.0 ≡ in_memory.0) × Represents out.1 in_memory.1

  call_account-Same :
      (c : AccountCall) (db : engine.Database) (m : Accounts)
      → FitsCall customers c
      → Represents db m
      → Same (call_account (sqlite_accounts engine) c db) (call_account in_memory_accounts c m)
  call_account-Same (finds id) db m h r =
      let found = found_row engine table id db (lookup id m) (r.rows id h) (r.numbers id) in
      (
        ap (λ (out : Throws (Option Account) × engine.Database). out.0) found,
        subst (λ (out : Throws (Option Account) × engine.Database). Represents out.1 m) (sym found)
            r,
      )
  call_account-Same (saves a) db m h r =
      let done =
        save_steps engine table a db
        ∙ write_done engine table (text "accounts.save")
            (record { sql = save_account_sql; bound = save_bindings a }) db
            (table.saves a db h.0 (r.same_customers (to_int64 a.owner_id) ∙ h.1)).0 in
      rw done (refl, saved-Represents a db m h.0 h.1 r)
  call_account-Same (removes id) db m h r =
      let done =
        remove_steps engine table id db
        ∙ write_done engine table (text "accounts.remove")
            (record { sql = remove_account_sql; bound = (1, sql_integer (to_int64 id)) ∷ [] }) db
            (table.removes (to_int64 id) db).0 in
      rw done (refl, removed-Represents id db m h r)

  call_accounts-Same :
      (cs : List AccountCall) (db : engine.Database) (m : Accounts)
      → All (FitsCall customers) cs
      → Represents db m
      → ((call_accounts (sqlite_accounts engine) cs db).0
          ≡ (call_accounts in_memory_accounts cs m).0)
        × Represents
            (call_accounts (sqlite_accounts engine) cs db).1
            (call_accounts in_memory_accounts cs m).1
  call_accounts-Same [] db m h r = (refl, r)
  call_accounts-Same (c ∷ cs) db m h r =
      let (result, next) = call_account-Same c db m h.0 r in
      let (results, last) =
        call_accounts-Same cs (call_account (sqlite_accounts engine) c db).1
          (call_account in_memory_accounts c m).1 h.1 next in
      (rw (result, results) refl, last)

-- Over a database whose account table has the id as its key, and on which no call fails, the SQLite
-- repository refines the in-memory one: every sequence of find_by_id, save and remove, of ids and
-- versions that are uint64_t, balances that are int64_t and owners that are customers of the
-- database, that starts with an empty table returns what it returns over the map;
-- under each uint64_t the table then has the row of the map's account, or none if the map has none.
pub sqlite_accounts-Refines :
    (engine : Engine) (table : IsAccountTable engine) (cs : List AccountCall) (db : engine.Database)
    → All (FitsCall (table.has_customer db)) cs
    → ((id : ℤ) → table.row_of db id ≡ none)
    → ((call_accounts (sqlite_accounts engine) cs db).0
        ≡ (call_accounts in_memory_accounts cs []).0)
      × Represents engine table
          (table.has_customer db)
          (call_accounts (sqlite_accounts engine) cs db).1
          (call_accounts in_memory_accounts cs []).1
unfolding lookup
sqlite_accounts-Refines engine table cs db fits empty =
    call_accounts-Same engine table (table.has_customer db) cs db [] fits (record {
      sorted = tt;
      rows = λ id _. empty (to_int64 id);
      numbers = λ id a found. absurd cc;
      same_customers = λ owner. refl;
    })
