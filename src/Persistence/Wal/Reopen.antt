-- ===== src/Persistence/Wal/Reopen.antt =====
-- src/persistence/WalLogger.cpp: what the constructor reads of a file that append has written.
use bank_managment_system.Prelude.{
  ℕ, ◌+◌, ◌^◌, ◌<◌, ◌≡◌, true, false, refl, ap, sym, ◌∙◌, List, [], ◌∷◌, ◌++◌, append-nil, length,
  length-append, arith,
}
use bank_managment_system.Prelude.Text.{Bytes}
use bank_managment_system.Prelude.Exec.{ok}
use bank_managment_system.Domain.Transaction.{TransactionRecord}
use bank_managment_system.Persistence.Json.OneLine.{IsOneLine}
use bank_managment_system.Persistence.Wal.{
  Entry, Wal, Disk, read_lines, open_journal, line_of, append,
}
use bank_managment_system.Persistence.Wal.Laws.{
  IsReliable, entry_of, trimmed, with_line, append_lem,
}
use bank_managment_system.Persistence.Wal.Line.{
  body_of, body_of-IsOneLine, line_of-body, parse_line-body, take-length-append,
}
use bank_managment_system.Persistence.Wal.Reading.{
  IsWhole, followed_by, read_lines-break, read_lines-nil, read_lines-append, read_lines-OneLine,
  read_lines-offset,
}

-- A written line is read as its entry.
read_body :
    (start : ℕ) (r : TransactionRecord)
    → r.id < 2 ^ 64
    → read_lines start [] (body_of r ++ 10 ∷ [])
      ≡ (entry_of r start ∷ [], start + length (body_of r) + 1, [])
read_body start r h =
    read_lines-append start [] (body_of r) (10 ∷ [])
    ∙ ap (λ t. followed_by t (10 ∷ []))
        (read_lines-OneLine start [] (body_of r) (body_of-IsOneLine r))
    ∙ rw
        (
          read_lines-break start (body_of r) 10 [] refl,
          read_lines-nil (start + length (body_of r) + 1) [],
          parse_line-body r start h,
        )
        refl

read_line :
    (start : ℕ) (r : TransactionRecord)
    → r.id < 2 ^ 64
    → read_lines start [] (line_of r) ≡ (entry_of r start ∷ [], start + length (line_of r), [])
read_line start r h =
    let size : start + length (body_of r) + 1 ≡ start + length (line_of r) =
      rw (line_of-body r) (omega (arith, length-append (body_of r) (10 ∷ []))) in
    ap (λ s. read_lines start [] s) (line_of-body r)
    ∙ read_body start r h
    ∙ ap (λ n. (entry_of r start ∷ [], n, [])) size

-- The content of two journals agrees; valid_length only matters while the tail is to be dropped.
pub record Agree (w w' : Wal) : Type 0 where
  pub same_path : w.path ≡ w'.path
  pub same_file : w.file ≡ w'.file
  pub same_entries : w.entries ≡ w'.entries
  pub same_offset : w.next_offset ≡ w'.next_offset
  pub same_tail : w.drop_tail ≡ w'.drop_tail

-- What the constructor makes of the lines it has read.
abbrev pub opened : Bytes → Bytes → List Entry × ℕ × Bytes → Wal
opened path file (entries, line_start, []) = record {
  path = path;
  file = file;
  entries = entries;
  next_offset = length file;
  drop_tail = false;
  valid_length = 0;
}
opened path file (entries, line_start, c ∷ t) = record {
  path = path;
  file = file;
  entries = entries;
  next_offset = line_start;
  drop_tail = true;
  valid_length = line_start;
}

pub open_journal-opened :
    (path file : Bytes) → open_journal path file ≡ opened path file (read_lines 0 [] file)
unfolding open_journal
open_journal-opened path file = refl

module _ (good : Bytes) (whole : IsWhole good) where
  whole-offset : (read_lines 0 [] good).1 ≡ length good
  whole-offset = omega (arith, read_lines-offset 0 [] good, ap (length {A = ℕ}) whole)

  abbrev entries_of : List Entry
  entries_of = (read_lines 0 [] good).0

  read_good : read_lines 0 [] good ≡ (entries_of, length good, [])
  read_good = λ i. (entries_of, whole-offset i, whole i)

  read_with_junk :
      (junk : Bytes)
      → IsOneLine junk
      → read_lines 0 [] (good ++ junk) ≡ (entries_of, length good, junk)
  read_with_junk junk h =
      read_lines-append 0 [] good junk
      ∙ ap (λ t. followed_by t junk) read_good
      ∙ rw (read_lines-OneLine (length good) [] junk h)
          (ap (λ es. (es, length good, junk)) (append-nil entries_of))

  read_with_line :
      (r : TransactionRecord)
      → r.id < 2 ^ 64
      → read_lines 0 [] (good ++ line_of r)
        ≡ (entries_of ++ entry_of r (length good) ∷ [], length good + length (line_of r), [])
  read_with_line r h =
      read_lines-append 0 [] good (line_of r)
      ∙ ap (λ t. followed_by t (line_of r)) read_good
      ∙ rw (read_line (length good) r h) refl

  opened_with_line :
      (path : Bytes) (r : TransactionRecord)
      → r.id < 2 ^ 64
      → open_journal path (good ++ line_of r)
        ≡ opened path
            (good ++ line_of r)
            (entries_of ++ entry_of r (length good) ∷ [], length good + length (line_of r), [])
  unfolding open_journal
  opened_with_line path r h = ap (opened path (good ++ line_of r)) (read_with_line r h)

  opened_with_junk :
      (path junk : Bytes)
      → IsOneLine junk
      → open_journal path (good ++ junk)
        ≡ opened path (good ++ junk) (entries_of, length good, junk)
  unfolding open_journal
  opened_with_junk path junk h = ap (opened path (good ++ junk)) (read_with_junk junk h)

  -- The journal that was opened, cut and appended to, against the one that is opened afterwards.
  appended-Agree :
      (path junk : Bytes) (r : TransactionRecord)
      → Agree (with_line r (trimmed (opened path (good ++ junk) (entries_of, length good, junk)))) (
          opened path
            (good ++ line_of r)
            (entries_of ++ entry_of r (length good) ∷ [], length good + length (line_of r), []))
  appended-Agree path [] r = record {
    same_path = refl;
    same_file = ap (λ f. f ++ line_of r) (append-nil good);
    same_entries = ap (λ f. entries_of ++ entry_of r (length f) ∷ []) (append-nil good);
    same_offset =
        omega (arith, ap (length {A = ℕ}) (append-nil good), length-append good (line_of r));
    same_tail = refl;
  }
  appended-Agree path (c ∷ t) r = record {
    same_path = refl;
    same_file = ap (λ f. f ++ line_of r) (take-length-append (length good) good (c ∷ t) refl);
    same_entries = refl;
    same_offset = sym (length-append good (line_of r));
    same_tail = refl;
  }

-- A process was interrupted while it appended: the journal is a whole file, which is empty or ends
-- with a line break, and then a piece without a line break. On a file system whose calls succeed,
-- opening that journal and appending a record whose id is a uint64_t returns, and leaves the
-- journal with the state that opening the whole file with the new line behind it gives; that file
-- is whole again, and its entries are the old ones and the new one.
pub append-open_journal :
    (disk : Disk) (path good junk : Bytes) (r : TransactionRecord)
    → IsReliable disk
    → IsWhole good
    → IsOneLine junk
    → r.id < 2 ^ 64
    → let (result, w) = append disk r (open_journal path (good ++ junk)) in
      (result ≡ ok tt)
      × Agree w (open_journal path (good ++ line_of r))
      × IsWhole (good ++ line_of r)
      × ((open_journal path (good ++ line_of r)).entries
          ≡ (open_journal path good).entries ++ entry_of r (length good) ∷ [])
append-open_journal disk path good junk r reliable whole one_line fits =
    let after = opened_with_line good whole path r fits in
    let before =
      ap (λ f. open_journal path f) (sym (append-nil good))
      ∙ opened_with_junk good whole path [] tt in
    rw
      (
        append_lem disk reliable r (open_journal path (good ++ junk)),
        opened_with_junk good whole path junk one_line,
        after,
        before,
      )
      (
        refl,
        appended-Agree good whole path junk r,
        ap (λ (t : List Entry × ℕ × Bytes). t.2) (read_with_line good whole r fits),
        refl,
      )
