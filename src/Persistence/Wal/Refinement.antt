-- ===== src/Persistence/Wal/Refinement.antt =====
-- src/persistence/WalLogger.cpp: the journal refines a list of records, across its calls and a
-- reopening of its file.
use bank_managment_system.Prelude.{
  ℕ, All, ◌≡◌, refl, ap, sym, subst, ◌∙◌, List, [], ◌∷◌, ◌++◌, length, drop,
}
use bank_managment_system.Prelude.Text.{Bytes}
use bank_managment_system.Domain.Transaction.{TransactionRecord}
use bank_managment_system.Persistence.Deserializer.Lines.{as_stored}
use bank_managment_system.Persistence.Wal.{Wal, Disk, open_journal}
use bank_managment_system.Persistence.Wal.Laws.{IsReliable}
use bank_managment_system.Persistence.Wal.Load.{load_all, load_entries, replay_from, size}
use bank_managment_system.Persistence.Wal.Reopen.{Agree}
use bank_managment_system.Persistence.Wal.Synced.{
  Holds, IsSynced, IsSynced-Agree, empty-IsSynced, empty-entries, append_step, with_line-IsSynced,
}
use bank_managment_system.Persistence.Wal.Marked.{
  with_commit-IsSynced, mark_result, mark_committed-Synced,
}
use bank_managment_system.Persistence.Wal.Log.{
  Command, appending, committing, run_command, Log, has_record, commit_record, log_command, run_all,
  IsReadBackCommand, IsFramed-Holds, load_nil, load_snoc, load_commit, has_load, length-load,
  replay_from-drop,
}

-- A journal in step with its file, against a log.
pub record Refines (w : Wal) (log : Log) : Type 0 where
  pub synced : IsSynced w
  pub loaded : load_all w ≡ log

module _ (d : Disk) (reliable : IsReliable d) where
  command-Refines :
      (c : Command) (w : Wal) (log : Log)
      → IsReadBackCommand c
      → Refines w log
      → ((run_command d c w).0 ≡ (log_command c log).0)
        × Refines (run_command d c w).1 (log_command c log).1
  unfolding load_all
  command-Refines (appending r) w log writable h =
      let held = IsFramed-Holds 0 w.entries h.synced.framed in
      rw (append_step d reliable r w h.synced.no_tail) (
        refl,
        record {
          synced = with_line-IsSynced r w writable h.synced;
          loaded =
              load_snoc w.entries r w.next_offset held writable
              ∙ ap (λ l. l ++ as_stored r ∷ []) h.loaded;
        },
      )
  command-Refines (committing id) w log _ h =
      let held = IsFramed-Holds 0 w.entries h.synced.framed in
      rw (mark_committed-Synced d reliable id w h.synced) (
        ap mark_result (has_load id w.entries held ∙ ap (has_record id) h.loaded),
        record {
          synced = with_commit-IsSynced id w h.synced;
          loaded = load_commit id w.entries held ∙ ap (commit_record id) h.loaded;
        },
      )

  run_all-Refines :
      (cs : List Command) (w : Wal) (log : Log)
      → All IsReadBackCommand cs
      → Refines w log
      → ((run_all (run_command d) cs w).0 ≡ (run_all log_command cs log).0)
        × Refines (run_all (run_command d) cs w).1 (run_all log_command cs log).1
  run_all-Refines [] w log ok_all h = (refl, h)
  run_all-Refines (c ∷ cs) w log ok_all h =
      let (same, next) = command-Refines c w log ok_all.0 h in
      let (later, last) =
        run_all-Refines cs (run_command d c w).1 (log_command c log).1 ok_all.1 next in
      ((λ i. same i ∷ later i), last)

Agree-load_all : (w w' : Wal) → Agree w w' → load_all w' ≡ load_all w
unfolding load_all
Agree-load_all w w' a = ap load_entries (sym a.same_entries)

reopened-Refines :
    (w : Wal) (log : Log) (from_lsn : ℕ)
    → Refines w log
    → let reopened = open_journal w.path w.file in
      Agree w reopened
      × (load_all reopened ≡ log)
      × (replay_from from_lsn reopened ≡ drop from_lsn log)
      × (size reopened ≡ length log)
unfolding size load_all
reopened-Refines w log from_lsn h =
    let reopened = open_journal w.path w.file in
    let agree = IsSynced-Agree w h.synced in
    let held = IsFramed-Holds 0 w.entries h.synced.framed in
    let held' = subst (All Holds) agree.same_entries held in
    let loaded = Agree-load_all w reopened agree ∙ h.loaded in
    (
      agree,
      loaded,
      replay_from-drop from_lsn reopened held' ∙ ap (drop from_lsn) loaded,
      length-load reopened.entries held' ∙ ap (length {A = TransactionRecord}) loaded,
    )

empty-Refines : (path : Bytes) → Refines (open_journal path []) []
unfolding load_all
empty-Refines path = record {
  synced = empty-IsSynced path;
  loaded = ap load_entries (empty-entries path) ∙ load_nil;
}

-- On a file system whose calls succeed, a journal that starts on an empty file and takes any
-- sequence of append, of records whose text is read back (the id a uint64_t other than 2^63, the
-- account ids and the amount below 2^63, the time an int64_t above the least), and mark_committed,
-- of any id, returns and throws what the log of the specification returns and throws; opening its
-- file again gives the same journal, whose load_all is that log, whose replay_from is what is left
-- of it after as many records as it is given, and whose size is the number of records. In the log
-- an append adds the record, its time cut to milliseconds, and mark_committed commits the first
-- record under the id, or throws.
pub journal-Refines :
    (d : Disk) (path : Bytes) (cs : List Command) (from_lsn : ℕ)
    → IsReliable d
    → All IsReadBackCommand cs
    → let (results, w) = run_all (run_command d) cs (open_journal path []) in
      let (log_results, log) = run_all log_command cs [] in
      let reopened = open_journal w.path w.file in
      (results ≡ log_results)
      × Agree w reopened
      × (load_all reopened ≡ log)
      × (replay_from from_lsn reopened ≡ drop from_lsn log)
      × (size reopened ≡ length log)
journal-Refines d path cs from_lsn reliable writable =
    let (same, refines) =
      run_all-Refines d reliable cs (open_journal path []) [] writable (empty-Refines path) in
    let w = (run_all (run_command d) cs (open_journal path [])).1 in
    let log = (run_all log_command cs []).1 in
    let (agree, loaded, replayed, sized) = reopened-Refines w log from_lsn refines in
    (same, agree, loaded, replayed, sized)
