-- ===== src/Persistence/Tests.antt =====
-- src/persistence/WalLogger.cpp: a journal of one line, with an append that was cut off behind it.
use bank_managment_system.Prelude.{
  ℕ, ◌^◌, ◌≡◌, refl, true, none, some, [], ◌∷◌, ◌++◌, length, set, take, arith,
}
use bank_managment_system.Prelude.Int.{pos}
use bank_managment_system.Prelude.Text.{Bytes, text}
use bank_managment_system.Prelude.Exec.{ok}
use bank_managment_system.Domain.Types.{TransactionType, TransactionState}
use bank_managment_system.Domain.Transaction.{TransactionRecord}
use bank_managment_system.Domain.Types.{AccountStatus}
use bank_managment_system.Domain.Account.{Account}
use bank_managment_system.Persistence.Serializer.{account_to_json}
use bank_managment_system.Persistence.Deserializer.{account_from_json}
use bank_managment_system.Persistence.Deserializer.RoundTrip.{account_from_json-large}
use bank_managment_system.Persistence.Wal.{Disk, open_journal, line_of, append, read_lines}
use bank_managment_system.Persistence.Wal.Laws.{IsReliable, entry_of}
use bank_managment_system.Persistence.Wal.Reading.{IsWhole}
use bank_managment_system.Persistence.Wal.Reopen.{Agree, append-open_journal}

-- A file system on which no call fails.
abbrev pub disk : Disk
disk = record {
  error_message = [];
  write_at_end = λ file line. (true, file ++ line);
  put = λ pos byte file. (true, set file pos byte);
  resize_file = λ n file. (true, take n file);
}

pub disk-IsReliable : IsReliable disk
disk-IsReliable = record {
  writes = λ file line. refl;
  puts = λ pos byte file. refl;
  resizes = λ n file. refl;
}

abbrev pub record_of : ℕ → TransactionRecord
record_of id = record {
  id = id;
  timestamp = pos 1_000_000;
  type = TransactionType.deposit;
  state = TransactionState.validated;
  from = none;
  to = some 1;
  amount = record { cents = 300 };
}

abbrev one_line_file : Bytes
one_line_file = line_of (record_of 1)

empty-IsWhole : IsWhole []
unfolding read_lines
empty-IsWhole = refl

one_line_file-IsWhole : IsWhole one_line_file
one_line_file-IsWhole =
    (append-open_journal disk (text "wal.log") [] [] (record_of 1) disk-IsReliable empty-IsWhole tt
      (omega arith)).2

abbrev junk : Bytes
junk = b'0' ∷ b'0' ∷ []

append-open_journal_example :
    let (result, w) =
      append disk (record_of 2) (open_journal (text "wal.log") (one_line_file ++ junk)) in
    (result ≡ ok tt)
    × Agree w (open_journal (text "wal.log") (one_line_file ++ line_of (record_of 2)))
    × IsWhole (one_line_file ++ line_of (record_of 2))
    × ((open_journal (text "wal.log") (one_line_file ++ line_of (record_of 2))).entries
        ≡ (open_journal (text "wal.log") one_line_file).entries
          ++ entry_of (record_of 2) (length one_line_file) ∷ [])
append-open_journal_example =
    append-open_journal disk (text "wal.log") one_line_file junk (record_of 2) disk-IsReliable
      one_line_file-IsWhole (omega arith, (omega arith, tt)) (omega arith)

abbrev pub account_with : ℕ → Account
account_with id = record {
  id = id;
  owner_id = 3;
  balance = record { cents = 1000 };
  status = AccountStatus.frozen;
  version = 2;
}

account_from_json-large_example : account_from_json (account_to_json (account_with (2 ^ 63))) ≡ none
account_from_json-large_example = account_from_json-large (account_with (2 ^ 63)) (omega arith)
