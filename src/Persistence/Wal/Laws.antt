-- ===== src/Persistence/Wal/Laws.antt =====
-- src/persistence/WalLogger.cpp: append and mark_committed over a file system whose calls succeed.
use bank_managment_system.Prelude.{
  ℕ, ◌+◌, ◌≡◌, ◌≢◌, ◌∙◌, true, false, if◌then◌else◌, List, [], ◌∷◌, ◌++◌, All, length, take, set,
  arith,
}
use bank_managment_system.Prelude.Text.{Bytes}
use bank_managment_system.Prelude.Exec.{ok, then-ok}
use bank_managment_system.Domain.Types.{TransactionId, TransactionState}
use bank_managment_system.Domain.Transaction.{TransactionRecord}
use bank_managment_system.Persistence.Serializer.{serialize}
use bank_managment_system.Persistence.Wal.Frame.{state_field_pos, state_byte}
use bank_managment_system.Persistence.Wal.{
  Entry, Wal, Disk, is_committed, line_of, append, write_line, truncate_interrupted_tail, mark_in,
  mark_committed, drop_interrupted, flip_state,
}

-- What the file system does when no call fails.
pub record IsReliable (d : Disk) : Type 0 where
  pub writes : (file line : Bytes) → d.write_at_end file line ≡ (true, file ++ line)
  pub puts : (pos byte : ℕ) (file : Bytes) → d.put pos byte file ≡ (true, set file pos byte)
  pub resizes : (n : ℕ) (file : Bytes) → d.resize_file n file ≡ (true, take n file)

-- The journal with its interrupted tail cut off.
abbrev pub trimmed : Wal → Wal
trimmed w = record w {
  file = if w.drop_tail then take w.valid_length w.file else w.file;
  drop_tail = false;
  next_offset = if w.drop_tail then w.valid_length else w.next_offset;
}

abbrev pub entry_of : TransactionRecord → ℕ → Entry
entry_of r offset = record { id = r.id; state = r.state; offset = offset; payload = serialize r }

abbrev pub with_line : TransactionRecord → Wal → Wal
with_line r w = record w {
  file = w.file ++ line_of r;
  entries = w.entries ++ entry_of r w.next_offset ∷ [];
  next_offset = w.next_offset + length (line_of r);
}

abbrev pub Lacks : TransactionId → List Entry → Type 0
Lacks id entries = All (λ (e : Entry). e.id ≢ id) entries

module _ (d : Disk) (reliable : IsReliable d) where
  truncate_lem :
      (w : Wal)
      → truncate_interrupted_tail d w ≡ (
        ok tt,
        record w {
          file = take w.valid_length w.file;
          drop_tail = false;
          next_offset = w.valid_length;
        },
      )
  unfolding truncate_interrupted_tail
  truncate_lem w = ground (arith, reliable.resizes w.valid_length w.file)

  write_line_lem : (r : TransactionRecord) (w : Wal) → write_line d r w ≡ (ok tt, with_line r w)
  unfolding write_line
  write_line_lem r w = ground (arith, reliable.writes w.file (line_of r))

  drop_interrupted_lem : (w : Wal) → drop_interrupted d w ≡ (ok tt, trimmed w)
  unfolding drop_interrupted
  drop_interrupted_lem w = ground (arith, truncate_lem w)

  pub append_lem :
      (r : TransactionRecord) (w : Wal) → append d r w ≡ (ok tt, with_line r (trimmed w))
  unfolding append
  append_lem r w =
      then-ok (drop_interrupted d) (write_line d r) w (trimmed w) tt (drop_interrupted_lem w)
      ∙ write_line_lem r (trimmed w)

  flip_lem :
      (e : Entry) (file : Bytes)
      → flip_state d e file
        ≡ (true, set file (e.offset + state_field_pos) (state_byte TransactionState.committed))
  unfolding flip_state
  flip_lem e file =
      reliable.puts (e.offset + state_field_pos) (state_byte TransactionState.committed) file

  pub mark_in_lem :
      (id : TransactionId) (es : List Entry) (e : Entry) (file : Bytes)
      → Lacks id es
      → e.id ≡ id
      → is_committed e.state ≡ false
      → mark_in d id (es ++ e ∷ []) file ≡ (
        ok (es ++ record e { state = TransactionState.committed } ∷ []),
        set file (e.offset + state_field_pos) (state_byte TransactionState.committed),
      )
  unfolding mark_in
  mark_in_lem id [] e file lacks same fresh = ground (arith, flip_lem e file)
  mark_in_lem id (x ∷ es) e file lacks same fresh =
      ground (arith, mark_in_lem id es e file lacks.1 same fresh)

  -- The entry that was appended last is the one that is marked, if no other carries its id.
  pub mark_committed_lem :
      (id : TransactionId) (w : Wal) (es : List Entry) (e : Entry)
      → w.entries ≡ es ++ e ∷ []
      → Lacks id es
      → e.id ≡ id
      → is_committed e.state ≡ false
      → mark_committed d id w ≡ (
        ok tt,
        record w {
          file = set w.file (e.offset + state_field_pos) (state_byte TransactionState.committed);
          entries = es ++ record e { state = TransactionState.committed } ∷ [];
        },
      )
  unfolding mark_committed
  mark_committed_lem id w es e shape lacks same fresh =
      ground (arith, mark_in_lem id es e w.file lacks same fresh)
