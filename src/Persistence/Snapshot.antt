-- ===== src/Persistence/Snapshot.antt =====
-- src/persistence/SnapshotStore.h and SnapshotStore.cpp: a snapshot of all accounts in one file,
-- written beside it and renamed. The file system is a parameter.
pub mod Atomic
pub mod RoundTrip
use bank_managment_system.Prelude.{
  ℕ, ◌==◌, Bool, true, false, if◌then◌else◌, Option, none, some, List, [], ◌∷◌, ◌++◌,
}
use bank_managment_system.Prelude.Int.{ℤ}
use bank_managment_system.Prelude.Text.{Bytes, text}
use bank_managment_system.Prelude.Exec.{Throws, ok, throw, runtime_error, Exec}
use bank_managment_system.Domain.Account.{Account}
use bank_managment_system.Persistence.Json.{
  Value, Items, Members, as_integer, find, set_member, push_item, dump,
}
use bank_managment_system.Persistence.Parser.{parse}
use bank_managment_system.Persistence.Serializer.{to_int64, to_uint64, account_to_json}
use bank_managment_system.Persistence.Deserializer.{given, account_from_json}

pub record Snapshot : Type 0 where
  pub lsn : ℕ
  pub accounts : List Account

-- The contents of the files at path_ and at path_ with ".tmp" behind it.
pub record Files : Type 0 where
  pub target : Option Bytes
  pub temporary : Option Bytes

-- The calls of the file system. A write says whether the stream was good afterwards, and gives the
-- file then; a rename and a removal give the value of the error code, which is 0 for success, and
-- the files then; `message` is the text of an error code.
pub record FileSystem : Type 0 where
  pub write_truncated : Option Bytes → Bytes → Bool × Option Bytes
  pub rename : Files → ℕ × Files
  pub remove : Option Bytes → ℕ × Option Bytes
  pub open_for_reading : Option Bytes → Option Bytes
  pub message : ℕ → Bytes

-- The loop that pushes the accounts.
unfoldable pub push_accounts : Items → List Account → Items
unfolding push_item account_to_json
push_accounts items [] = items
push_accounts items (a ∷ accounts) = push_accounts (push_item (account_to_json a) items) accounts

unfoldable pub snapshot_to_json : Snapshot → Value
unfolding push_accounts set_member
snapshot_to_json s =
    let lsn = set_member (text "lsn") (Value.integer (to_int64 s.lsn)) Members.end in
    Value.object
      (set_member (text "accounts") (Value.array (push_accounts Items.nil s.accounts)) lsn)

-- Value::items, which is empty for a value of another kind.
abbrev pub items : Value → Items
items (Value.array xs) = xs
items _ = Items.nil

-- The loop of load over the items.
unfoldable pub read_accounts : Items → Option (List Account)
unfolding account_from_json
read_accounts Items.nil = some []
read_accounts (Items.item v rest) =
    given (account_from_json v) λ a. given (read_accounts rest) λ accounts. some (a ∷ accounts)

unfoldable pub snapshot_from_json : Value → Option Snapshot
unfolding read_accounts find
snapshot_from_json v = given (find (text "lsn") v) λ lsn.
    given (find (text "accounts") v) λ accounts. given (as_integer lsn) λ z.
      given (read_accounts (items accounts))
        λ found. some (record { lsn = to_uint64 z; accounts = found })

module _ (fs : FileSystem) where
  -- After a failed rename, remove leaves its own error code in the place of the one of rename.
  unfoldable pub commit_rename : Exec Files (Unit {0})
  commit_rename f =
      let (code, f') = fs.rename f in
      let (code', temporary') = fs.remove f'.temporary in
      if code == 0 then (ok tt, f') else (
        throw (runtime_error (text "SnapshotStore: commit rename failed: " ++ fs.message code')),
        record f' { temporary = temporary' },
      )

  unfoldable pub store : Snapshot → Exec Files (Unit {0})
  unfolding commit_rename
  store s f =
      let (good, temporary') =
        fs.write_truncated f.temporary (dump (snapshot_to_json s) ++ 10 ∷ []) in
      let written = record f { temporary = temporary' } in
      if good
      then commit_rename written
      else (throw (runtime_error (text "SnapshotStore: write failed")), written)

  unfoldable pub load : Files → Option Snapshot
  unfolding parse snapshot_from_json
  load f = given (fs.open_for_reading f.target) λ content. given (parse content) snapshot_from_json

  -- The error code of remove is ignored.
  unfoldable pub clear : Files → Files
  clear f = record f { target = (fs.remove f.target).1 }
