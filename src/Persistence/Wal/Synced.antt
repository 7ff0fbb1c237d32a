-- ===== src/Persistence/Wal/Synced.antt =====
-- src/persistence/WalLogger.cpp: the entries in memory and the lines of the file.
use bank_managment_system.Prelude.{
  ℕ, ◌+◌, ◌^◌, ◌<◌, ◌≡◌, false, refl, ap, sym, subst, ◌∙◌, List, [], ◌∷◌, ◌++◌, append-nil,
  append_assoc, length, length-append, arith,
}
use bank_managment_system.Prelude.Text.{Bytes}
use bank_managment_system.Prelude.Exec.{ok}
use bank_managment_system.Domain.Types.{TransactionId, TransactionState}
use bank_managment_system.Domain.Transaction.{TransactionRecord}
use bank_managment_system.Persistence.Json.OneLine.{IsOneLine}
use bank_managment_system.Persistence.Serializer.{serialize}
use bank_managment_system.Persistence.Deserializer.Lines.{IsReadBack}
use bank_managment_system.Persistence.Wal.Frame.{id_to_field, state_byte}
use bank_managment_system.Persistence.Wal.{
  Entry, Wal, Disk, read_lines, open_journal, line_of, append,
}
use bank_managment_system.Persistence.Wal.Laws.{
  IsReliable, entry_of, with_line, trimmed, append_lem,
}
use bank_managment_system.Persistence.Wal.Line.{
  frame_of, frame_of-IsOneLine, parse_line-frame, serialize-IsOneLine, length-id_to_field,
}
use bank_managment_system.Persistence.Wal.Reading.{
  followed_by, read_lines-break, read_lines-nil, read_lines-append, read_lines-OneLine,
}
use bank_managment_system.Persistence.Wal.Reopen.{Agree, opened, open_journal-opened}

-- The line of an entry, whose header may have a later state than its payload.
abbrev pub entry_line : Entry → Bytes
entry_line e = id_to_field e.id ++ (state_byte e.state ∷ (e.payload ++ 10 ∷ []))

abbrev pub entry_lines : List Entry → Bytes
entry_lines [] = []
entry_lines (e ∷ es) = entry_line e ++ entry_lines es

-- The payload of the entry is the text of a record under its id.
abbrev pub Holds : Entry → Type 0
Holds e = (r : TransactionRecord) × IsReadBack r × (e.id ≡ r.id) × (e.payload ≡ serialize r)

-- The entries stand one behind the other from the offset on.
abbrev pub IsFramed : ℕ → List Entry → Type 0
IsFramed start [] = Unit
IsFramed start (e ∷ es) = (e.offset ≡ start) × Holds e × IsFramed (start + length (entry_line e)) es

pub record IsSynced (w : Wal) : Type 0 where
  pub no_tail : w.drop_tail ≡ false
  pub in_file : w.file ≡ entry_lines w.entries
  pub at_end : w.next_offset ≡ length w.file
  pub framed : IsFramed 0 w.entries

Holds-fits : (e : Entry) → Holds e → e.id < 2 ^ 64
Holds-fits e (r, writable, same, _) = rw same writable.id_fits

pub length-frame_line :
    (id : TransactionId) (state : TransactionState) (payload : Bytes)
    → length (id_to_field id ++ (state_byte state ∷ (payload ++ 10 ∷ []))) ≡ 18 + length payload
length-frame_line id state payload = omega (
  arith,
  length-append (id_to_field id) (state_byte state ∷ (payload ++ 10 ∷ [])),
  length-id_to_field id,
  length-append payload (10 ∷ []),
)

read_frame :
    (start : ℕ) (id : TransactionId) (state : TransactionState) (payload : Bytes)
    → id < 2 ^ 64
    → IsOneLine payload
    → read_lines start [] (frame_of id state payload ++ 10 ∷ []) ≡ (
      record { id = id; state = state; offset = start; payload = payload } ∷ [],
      start + length (frame_of id state payload) + 1,
      [],
    )
read_frame start id state payload h one_line =
    let body = frame_of id state payload in
    read_lines-append start [] body (10 ∷ [])
    ∙ ap (λ t. followed_by t (10 ∷ []))
        (read_lines-OneLine start [] body (frame_of-IsOneLine id state payload one_line))
    ∙ rw
        (
          read_lines-break start body 10 [] refl,
          read_lines-nil (start + length body + 1) [],
          parse_line-frame id state payload start h,
        )
        refl

Holds-IsOneLine : (e : Entry) → Holds e → IsOneLine e.payload
Holds-IsOneLine e (r, _, _, same) = subst IsOneLine (sym same) (serialize-IsOneLine r)

entry_line-frame : (e : Entry) → entry_line e ≡ frame_of e.id e.state e.payload ++ 10 ∷ []
entry_line-frame e =
    sym (append_assoc (id_to_field e.id) (state_byte e.state ∷ e.payload) (10 ∷ []))

read_entry :
    (start : ℕ) (e : Entry)
    → e.offset ≡ start
    → Holds e
    → read_lines start [] (entry_line e) ≡ (e ∷ [], start + length (entry_line e), [])
read_entry start e here h =
    let body = frame_of e.id e.state e.payload in
    let size : start + length body + 1 ≡ start + length (entry_line e) =
      omega (arith, ap (length {A = ℕ}) (entry_line-frame e), length-append body (10 ∷ [])) in
    ap (λ s. read_lines start [] s) (entry_line-frame e)
    ∙ read_frame start e.id e.state e.payload (Holds-fits e h) (Holds-IsOneLine e h)
    ∙ (λ i. (record e { offset = sym here i } ∷ [], size i, []))

read_entries :
    (start : ℕ) (es : List Entry)
    → IsFramed start es
    → read_lines start [] (entry_lines es) ≡ (es, start + length (entry_lines es), [])
read_entries start [] h = read_lines-nil start [] ∙ (λ i. ([], zero_end i, []))
  where
    zero_end : start ≡ start + 0
    zero_end = omega arith
read_entries start (e ∷ es) h =
    let next = start + length (entry_line e) in
    let size : next + length (entry_lines es) ≡ start + length (entry_line e ++ entry_lines es) =
      omega (arith, length-append (entry_line e) (entry_lines es)) in
    read_lines-append start [] (entry_line e) (entry_lines es)
    ∙ ap (λ t. followed_by t (entry_lines es)) (read_entry start e h.0 h.1)
    ∙ ap (λ (t : List Entry × ℕ × Bytes). (e ∷ t.0, t.1, t.2)) (read_entries next es h.2)
    ∙ (λ i. (e ∷ es, size i, []))

opened_entries :
    (path : Bytes) (es : List Entry)
    → IsFramed 0 es
    → open_journal path (entry_lines es) ≡ record {
      path = path;
      file = entry_lines es;
      entries = es;
      next_offset = length (entry_lines es);
      drop_tail = false;
      valid_length = 0;
    }
opened_entries path es h =
    open_journal-opened path (entry_lines es)
    ∙ ap (opened path (entry_lines es)) (read_entries 0 es h)

-- The journal in memory is the one that opening its file gives.
pub IsSynced-Agree : (w : Wal) → IsSynced w → Agree w (open_journal w.path w.file)
IsSynced-Agree w h =
    let reopened = ap (open_journal w.path) h.in_file ∙ opened_entries w.path w.entries h.framed in
    rw reopened (record {
      same_path = refl;
      same_file = h.in_file;
      same_entries = refl;
      same_offset = h.at_end ∙ ap (length {A = ℕ}) h.in_file;
      same_tail = h.no_tail;
    })

pub Agree-IsSynced : (w w' : Wal) → Agree w w' → IsSynced w → IsSynced w'
Agree-IsSynced w w' a h = record {
  no_tail = sym a.same_tail ∙ h.no_tail;
  in_file = sym a.same_file ∙ h.in_file ∙ ap entry_lines a.same_entries;
  at_end = sym a.same_offset ∙ h.at_end ∙ ap (length {A = ℕ}) a.same_file;
  framed = subst (IsFramed 0) a.same_entries h.framed;
}

-- A journal on an empty file.
pub empty-IsSynced : (path : Bytes) → IsSynced (open_journal path [])
empty-IsSynced path =
    subst IsSynced (sym (opened_entries path [] tt))
      (record { no_tail = refl; in_file = refl; at_end = refl; framed = tt })

pub empty-entries : (path : Bytes) → (open_journal path []).entries ≡ []
empty-entries path = ap (λ (w : Wal). w.entries) (opened_entries path [] tt)

pub entry_lines-append :
    (es fs : List Entry) → entry_lines (es ++ fs) ≡ entry_lines es ++ entry_lines fs
entry_lines-append [] fs = refl
entry_lines-append (e ∷ es) fs =
    ap (λ t. entry_line e ++ t) (entry_lines-append es fs)
    ∙ sym (append_assoc (entry_line e) (entry_lines es) (entry_lines fs))

IsFramed-snoc :
    (start : ℕ) (es : List Entry) (e : Entry)
    → IsFramed start es
    → e.offset ≡ start + length (entry_lines es)
    → Holds e
    → IsFramed start (es ++ e ∷ [])
IsFramed-snoc start [] e h here holds = (omega arith, holds, tt)
IsFramed-snoc start (f ∷ es) e h here holds = (
  h.0,
  h.1,
  IsFramed-snoc (start + length (entry_line f)) es e h.2
      (omega (arith, length-append (entry_line f) (entry_lines es))) holds,
)

pub untrimmed : (w : Wal) → w.drop_tail ≡ false → trimmed w ≡ w
untrimmed w no_tail = ground arith

module _ (d : Disk) (reliable : IsReliable d) where
  pub append_step :
      (r : TransactionRecord) (w : Wal)
      → w.drop_tail ≡ false
      → append d r w ≡ (ok tt, with_line r w)
  append_step r w no_tail =
      append_lem d reliable r w ∙ ap (λ v. (ok tt, with_line r v)) (untrimmed w no_tail)

pub with_line-IsSynced :
    (r : TransactionRecord) (w : Wal) → IsReadBack r → IsSynced w → IsSynced (with_line r w)
with_line-IsSynced r w writable h = record {
  no_tail = h.no_tail;
  in_file =
      ap (λ f. f ++ line_of r) h.in_file
      ∙ ap (λ t. entry_lines w.entries ++ t) (sym (append-nil (line_of r)))
      ∙ sym (entry_lines-append w.entries (entry_of r w.next_offset ∷ []));
  at_end = omega (arith, h.at_end, length-append w.file (line_of r));
  framed =
      IsFramed-snoc 0 w.entries (entry_of r w.next_offset) h.framed
        (omega (arith, h.at_end, ap (length {A = ℕ}) h.in_file)) (r, writable, refl, refl);
}
