-- ===== src/Persistence/Wal/Load.antt =====
-- src/persistence/WalLogger.h and WalLogger.cpp: size, load_all and replay_from.
use bank_managment_system.Prelude.{
  ℕ, leb, length, drop, if◌then◌else◌, Option, none, some, List, [], ◌∷◌,
}
use bank_managment_system.Domain.Types.{TransactionState}
use bank_managment_system.Domain.Transaction.{TransactionRecord}
use bank_managment_system.Persistence.Deserializer.{deserialize_transaction}
use bank_managment_system.Persistence.Wal.{Entry, Wal}

unfoldable pub size : Wal → ℕ
size w = length w.entries

-- The body of both loops: the state of the header goes into the record, if there is one.
abbrev pub keep_record :
    TransactionState → Option TransactionRecord → List TransactionRecord → List TransactionRecord
keep_record state none out = out
keep_record state (some r) out = record r { state = state } ∷ out

unfoldable pub load_entries : List Entry → List TransactionRecord
unfolding deserialize_transaction
load_entries [] = []
load_entries (e ∷ es) = keep_record e.state (deserialize_transaction e.payload) (load_entries es)

unfoldable pub load_all : Wal → List TransactionRecord
unfolding load_entries
load_all w = load_entries w.entries

unfoldable pub replay_from : ℕ → Wal → List TransactionRecord
unfolding load_entries
replay_from from_lsn w =
    if leb (length w.entries) from_lsn then [] else load_entries (drop from_lsn w.entries)
