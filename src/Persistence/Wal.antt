-- ===== src/Persistence/Wal.antt =====
-- src/persistence/WalLogger.h and WalLogger.cpp: the journal. Its file system is a parameter.
pub mod Frame
pub mod Laws
pub mod Line
pub mod Load
pub mod Log
pub mod Marked
pub mod Reading
pub mod Refinement
pub mod Reopen
pub mod Synced
use bank_managment_system.Prelude.{
  ℕ, suc, ◌+◌, ◌==◌, leb, Bool, true, false, not, if◌then◌else◌, Option, none, some, List, [], ◌∷◌,
  ◌++◌, length, take, drop,
}
use bank_managment_system.Prelude.Text.{Bytes, text}
use bank_managment_system.Prelude.Exec.{Exec, ok, throw, logic_error, runtime_error, ◌>>=◌, ◌>>◌}
use bank_managment_system.Domain.Types.{TransactionId, TransactionState}
use bank_managment_system.Domain.Transaction.{TransactionRecord}
use bank_managment_system.Persistence.Serializer.{serialize}
use Frame.{
  id_field_width, state_field_pos, header_size, state_byte, state_from_byte, id_to_field,
  id_from_field,
}

pub record Entry : Type 0 where
  pub id : TransactionId
  pub state : TransactionState
  pub offset : ℕ
  pub payload : Bytes

-- `file` is the content of the file at path_; `drop_tail` says that its end is an append that never
-- completed.
pub record Wal : Type 0 where
  pub path : Bytes
  pub file : Bytes
  pub entries : List Entry
  pub next_offset : ℕ
  pub drop_tail : Bool
  pub valid_length : ℕ

-- The file system: each call says whether the stream was good afterwards, and gives the file then.
-- `error_message` is the text of the error code of a failed resize.
pub record Disk : Type 0 where
  pub error_message : Bytes
  pub write_at_end : Bytes → Bytes → Bool × Bytes
  pub put : ℕ → ℕ → Bytes → Bool × Bytes
  pub resize_file : ℕ → Bytes → Bool × Bytes

abbrev pub is_committed : TransactionState → Bool
is_committed TransactionState.committed = true
is_committed _ = false

-- The body of the loop in the constructor, for one complete line.
unfoldable pub parse_line : ℕ → Bytes → Option Entry
parse_line line_start line =
    if leb header_size (length line)
    then elim (id_from_field (take id_field_width line)) [
      | none ↦ none
      | some id ↦ elim (drop state_field_pos line) [
        | [] ↦ none
        | c ∷ payload ↦ elim (state_from_byte c) [
          | none ↦ none
          | some state ↦
              some (record { id = id; state = state; offset = line_start; payload = payload })
        ]
      ]
    ]
    else none

abbrev pub keep_entry : Option Entry → List Entry → List Entry
keep_entry none entries = entries
keep_entry (some e) entries = e ∷ entries

-- The lines of the file: the entries, where the last line begins, and what stands of it.
-- `line` is what has been read of the current line.
unfoldable pub read_lines : ℕ → Bytes → Bytes → List Entry × ℕ × Bytes
unfolding parse_line
read_lines line_start line [] = ([], line_start, line)
read_lines line_start line (c ∷ rest) =
    let at_end = read_lines (line_start + length line + 1) [] rest in
    let inside = read_lines line_start (line ++ c ∷ []) rest in
    if c == 10
    then (keep_entry (parse_line line_start line) at_end.0, at_end.1, at_end.2)
    else inside

-- The constructor, over the content of the file.
unfoldable pub open_journal : Bytes → Bytes → Wal
unfolding read_lines
open_journal path file =
    let (entries, line_start, tail) = read_lines 0 [] file in
    elim tail [
      | [] ↦ record {
        path = path;
        file = file;
        entries = entries;
        next_offset = length file;
        drop_tail = false;
        valid_length = 0;
      }
      | c ∷ t ↦ record {
        path = path;
        file = file;
        entries = entries;
        next_offset = line_start;
        drop_tail = true;
        valid_length = line_start;
      }
    ]

-- One line of the journal.
abbrev pub line_of : TransactionRecord → Bytes
line_of r = id_to_field r.id ++ (state_byte r.state ∷ (serialize r ++ 10 ∷ []))

module _ (disk : Disk) where
  unfoldable pub truncate_interrupted_tail : Exec Wal (Unit {0})
  truncate_interrupted_tail w =
      let (good, file') = disk.resize_file w.valid_length w.file in
      if good
      then (ok tt, record w { file = file'; drop_tail = false; next_offset = w.valid_length })
      else (
        throw (runtime_error (text "WalLogger: tail truncation failed: " ++ disk.error_message)),
        record w { file = file' },
      )

  unfoldable pub write_line : TransactionRecord → Exec Wal (Unit {0})
  write_line r w =
      let (good, file') = disk.write_at_end w.file (line_of r) in
      if good
      then (
        ok tt,
        record w {
          file = file';
          entries =
              w.entries
              ++ record {
                id = r.id;
                state = r.state;
                offset = w.next_offset;
                payload = serialize r;
              }
                ∷ [];
          next_offset = w.next_offset + length (line_of r);
        },
      )
      else (
        throw (runtime_error (text "WalLogger: append failed for " ++ w.path)),
        record w { file = file' },
      )

  -- if (drop_tail_) truncate_interrupted_tail();
  unfoldable pub drop_interrupted : Exec Wal (Unit {0})
  drop_interrupted w = if w.drop_tail then truncate_interrupted_tail w else (ok tt, w)

  unfoldable pub append : TransactionRecord → Exec Wal (Unit {0})
  append r = do drop_interrupted; write_line r

  -- The commit marker of one entry: the file and the entry afterwards.
  unfoldable pub flip_state : Entry → Bytes → Bool × Bytes
  flip_state e file =
      disk.put (e.offset + state_field_pos) (state_byte TransactionState.committed) file

  -- The loop of mark_committed over the entries that are left.
  unfoldable pub mark_in : TransactionId → List Entry → Exec Bytes (List Entry)
  mark_in id [] file =
      (throw (logic_error (text "WalLogger: mark_committed on unknown transaction id")), file)
  mark_in id (e ∷ rest) file =
      let later = mark_in id rest file in
      if not (e.id == id)
      then elim later.0 [ throw ex ↦ (throw ex, later.1) | ok es ↦ (ok (e ∷ es), later.1) ]
      else if is_committed e.state
      then (ok (e ∷ rest), file)
      else (let (good, file') = flip_state e file in
          if good
          then (ok (record e { state = TransactionState.committed } ∷ rest), file')
          else (throw (runtime_error (text "WalLogger: commit marker write failed")), file'))

  unfoldable pub mark_committed : TransactionId → Exec Wal (Unit {0})
  mark_committed id w =
      let (r, file') = mark_in id w.entries w.file in
      elim r [
        | throw ex ↦ (throw ex, record w { file = file' })
        | ok es ↦ (ok tt, record w { file = file'; entries = es })
      ]
