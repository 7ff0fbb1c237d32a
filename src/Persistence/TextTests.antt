-- ===== src/Persistence/TextTests.antt =====
-- src/persistence/Json.cpp, Serializer.cpp, WalLogger.cpp and SnapshotStore.cpp: runs on small texts.
use bank_managment_system.Prelude.{
  ◌≡◌, ◌≢◌, refl, ◌⊎◌, inl, inr, true, none, some, List, [], ◌∷◌, length, drop, arith,
}
use bank_managment_system.Prelude.Int.{pos, negsuc}
use bank_managment_system.Prelude.Text.{Bytes, text, text_eq}
use bank_managment_system.Prelude.Exec.{ok, throw, Exception}
use bank_managment_system.Persistence.Json.{Value, Items, Members, dump}
use bank_managment_system.Persistence.Parser.Words.{out_of_fuel}
use bank_managment_system.Persistence.Parser.{parse, run_parser}
use bank_managment_system.Persistence.Parser.Total.{run_parser_ends}
use bank_managment_system.Persistence.Parser.Readable.{IsReadable}
use bank_managment_system.Persistence.Parser.RoundTrip.{parse-dump}
use bank_managment_system.Persistence.Parser.Sound.{parse-dump-parse}
use bank_managment_system.Persistence.Serializer.{serialize, serialize_account}
use bank_managment_system.Persistence.Deserializer.{deserialize_transaction, deserialize_account}
use bank_managment_system.Persistence.Deserializer.Lines.{
  IsReadBack, as_stored, deserialize_transaction-serialize, deserialize_account-serialize_account,
}
use bank_managment_system.Persistence.Wal.{open_journal}
use bank_managment_system.Persistence.Wal.Reopen.{Agree}
use bank_managment_system.Persistence.Wal.Load.{load_all, replay_from, size}
use bank_managment_system.Persistence.Wal.Log.{Command, run_command, log_command, run_all}
use bank_managment_system.Persistence.Wal.Refinement.{journal-Refines}
use bank_managment_system.Persistence.Snapshot.{Snapshot, Files, FileSystem, store, load}
use bank_managment_system.Persistence.Snapshot.RoundTrip.{IsStorableAccount, IsStorable}
use bank_managment_system.Persistence.Snapshot.Atomic.{
  IsFaithful, IsReliable, load-store, load-store_reliable,
}
use bank_managment_system.Persistence.Tests.{disk, disk-IsReliable, record_of, account_with}

abbrev small_value : Value
small_value = Value.object (
    Members.member (text "k")
      (Value.array (Items.item (Value.integer (negsuc 6)) (Items.item Value.null Items.nil)))
      Members.end)

parse-dump_example : parse (dump small_value) ≡ some small_value
parse-dump_example = parse-dump small_value (((omega arith), (tt, tt)), tt, tt)

-- A text that dump does not write.
abbrev spaced : Bytes
spaced = text " [ 7 , null]"

abbrev spaced_value : Value
spaced_value = Value.array (Items.item (Value.integer (pos 7)) (Items.item Value.null Items.nil))

parse-spaced : parse spaced ≡ some spaced_value
unfolding parse text text_eq
parse-spaced = refl

parse-dump-parse_example : IsReadable spaced_value × (parse (dump spaced_value) ≡ some spaced_value)
parse-dump-parse_example = parse-dump-parse spaced spaced_value parse-spaced

run_parser_ends_example : run_parser (text "[{\"a\":[1,") ≢ out_of_fuel
run_parser_ends_example = run_parser_ends (text "[{\"a\":[1,")

record_5-IsReadBack : IsReadBack (record_of 5)
record_5-IsReadBack = record {
  id_fits = omega arith;
  id_readable = λ e. omega arith;
  time_fits = omega arith;
  from_small = tt;
  to_small = omega arith;
  amount_fits = omega arith;
}

deserialize_transaction-serialize_example :
    deserialize_transaction (serialize (record_of 5)) ≡ some (as_stored (record_of 5))
deserialize_transaction-serialize_example =
    deserialize_transaction-serialize (record_of 5) record_5-IsReadBack

deserialize_account-serialize_account_example :
    deserialize_account (serialize_account (account_with 1)) ≡ some (account_with 1)
deserialize_account-serialize_account_example =
    deserialize_account-serialize_account (account_with 1) (omega arith) (omega arith) (omega arith)
      (omega arith)

-- An append, its commit, and a commit of an id that is not there.
abbrev commands : List Command
commands = Command.appending (record_of 5) ∷ Command.committing 5 ∷ Command.committing 9 ∷ []

journal-Refines_example :
    let (results, w) = run_all (run_command disk) commands (open_journal (text "wal.log") []) in
    let (log_results, log) = run_all log_command commands [] in
    let reopened = open_journal w.path w.file in
    (results ≡ log_results)
    × Agree w reopened
    × (load_all reopened ≡ log)
    × (replay_from 1 reopened ≡ drop 1 log)
    × (size reopened ≡ length log)
journal-Refines_example =
    journal-Refines disk (text "wal.log") commands 1 disk-IsReliable
      (record_5-IsReadBack, (tt, (tt, tt)))

abbrev two_accounts : Snapshot
two_accounts = record { lsn = 12; accounts = account_with 1 ∷ account_with 4 ∷ [] }

two_accounts-IsStorable : IsStorable two_accounts
two_accounts-IsStorable =
    let first : IsStorableAccount (account_with 1) = record {
      id_small = omega arith;
      owner_small = omega arith;
      balance_fits = omega arith;
      version_small = omega arith;
    } in
    let second : IsStorableAccount (account_with 4) = record {
      id_small = omega arith;
      owner_small = omega arith;
      balance_fits = omega arith;
      version_small = omega arith;
    } in
    (omega arith, (first, (second, tt)))

-- A file system on which the rename fails.
abbrev read_only : FileSystem
read_only = record {
  write_truncated = λ old content. (true, some content);
  rename = λ f. (13, f);
  remove = λ old. (0, none);
  open_for_reading = λ file. file;
  message = λ code. text "Permission denied";
}

read_only-IsFaithful : IsFaithful read_only
read_only-IsFaithful = record {
  writes = λ old content good. refl;
  reads = λ content. inl refl;
  renames = λ f. inr (13, refl, refl);
}

-- One on which no call fails.
abbrev working : FileSystem
working = record read_only {
  rename = λ f. (0, record f { target = f.temporary; temporary = none });
}

working-IsReliable : IsReliable working
working-IsReliable = record {
  writes = λ old content. refl;
  reads = λ content. refl;
  renames = λ f. refl;
}

abbrev no_files : Files
no_files = record { target = none; temporary = none }

load-store_example :
    let (result, f') = store read_only two_accounts no_files in
    ((result ≡ ok tt)
      × ((load read_only f' ≡ some two_accounts)
          ⊎ ((read_only.open_for_reading f'.target ≡ none) × (load read_only f' ≡ none))))
    ⊎ ((ex : Exception) × (result ≡ throw ex) × (load read_only f' ≡ load read_only no_files))
load-store_example =
    load-store read_only two_accounts no_files read_only-IsFaithful two_accounts-IsStorable

load-store_reliable_example :
    let (result, f') = store working two_accounts no_files in
    (result ≡ ok tt) × (f'.temporary ≡ none) × (load working f' ≡ some two_accounts)
load-store_reliable_example =
    load-store_reliable working two_accounts no_files working-IsReliable two_accounts-IsStorable
