-- ===== src/Persistence/Wal/Marked.antt =====
-- src/persistence/WalLogger.cpp: mark_committed keeps the file and the entries in step.
use bank_managment_system.Prelude.{
  ℕ, zero, suc, ◌+◌, ◌==◌, ◌≡◌, true, false, Bool, refl, ap, sym, subst, ◌∙◌, if◌then◌else◌,
  if-both, ◌||◌, List, [], ◌∷◌, ◌++◌, append_assoc, length, length-append, set, arith, Bool-cases,
  inl, inr,
}
use bank_managment_system.Prelude.Text.{Bytes, text}
use bank_managment_system.Prelude.Exec.{Exception, Throws, logic_error, ok, throw}
use bank_managment_system.Domain.Types.{TransactionId, TransactionState}
use bank_managment_system.Persistence.Wal.Frame.{id_to_field, state_byte, state_field_pos}
use bank_managment_system.Persistence.Wal.{
  Entry, Wal, Disk, mark_in, mark_committed, flip_state, is_committed,
}
use bank_managment_system.Persistence.Wal.Laws.{IsReliable}
use bank_managment_system.Persistence.Wal.Line.{length-id_to_field}
use bank_managment_system.Persistence.Wal.Synced.{
  entry_line, entry_lines, IsFramed, IsSynced, length-frame_line,
}

-- The entries once the first one under the id is marked.
abbrev pub commit_entries : TransactionId → List Entry → List Entry
commit_entries id [] = []
commit_entries id (e ∷ es) =
    if e.id == id
    then record e { state = TransactionState.committed } ∷ es
    else e ∷ commit_entries id es

abbrev pub has_entry : TransactionId → List Entry → Bool
has_entry id [] = false
has_entry id (e ∷ es) = e.id == id || has_entry id es

set-length-append :
    (k : ℕ) (xs ys : Bytes) (c v : ℕ) → length xs ≡ k → set (xs ++ c ∷ ys) k v ≡ xs ++ v ∷ ys
set-length-append zero [] ys c v h = refl
set-length-append zero (x ∷ xs) ys c v h = absurd (omega arith)
set-length-append (suc k) [] ys c v h = absurd (omega arith)
set-length-append (suc k) (x ∷ xs) ys c v h =
    ap (λ l. x ∷ l) (set-length-append k xs ys c v (omega arith))

-- The byte that is written is the state of the entry.
flipped :
    (before after : Bytes) (e : Entry)
    → e.offset ≡ length before
    → set
        (before ++ (entry_line e ++ after))
        (e.offset + state_field_pos)
        (state_byte TransactionState.committed)
      ≡ before ++ (entry_line (record e { state = TransactionState.committed }) ++ after)
flipped before after e here =
    let front = before ++ id_to_field e.id in
    let back = (e.payload ++ 10 ∷ []) ++ after in
    let place : length front ≡ e.offset + state_field_pos =
      omega (arith, length-append before (id_to_field e.id), length-id_to_field e.id) in
    let regroup : (s : TransactionState)
        → before ++ (entry_line (record e { state = s }) ++ after) ≡ front ++ state_byte s ∷ back =
      λ s.
        ap (λ t. before ++ t)
          (append_assoc (id_to_field e.id) (state_byte s ∷ (e.payload ++ 10 ∷ [])) after)
        ∙ sym (append_assoc before (id_to_field e.id) (state_byte s ∷ back)) in
    ap (λ f. set f (e.offset + state_field_pos) (state_byte TransactionState.committed))
      (regroup e.state)
    ∙ set-length-append (e.offset + state_field_pos) front back (state_byte e.state)
        (state_byte TransactionState.committed) place
    ∙ sym (regroup TransactionState.committed)

length-commit :
    (id : TransactionId) (es : List Entry)
    → length (entry_lines (commit_entries id es)) ≡ length (entry_lines es)
length-commit id [] = refl
length-commit id (e ∷ es) =
    let marked = record e { state = TransactionState.committed } in
    if-both (λ l. length (entry_lines l) ≡ length (entry_line e ++ entry_lines es)) (e.id == id)
      (marked ∷ es) (e ∷ commit_entries id es)
      (λ _. omega (
        arith,
        length-frame_line e.id e.state e.payload,
        length-frame_line e.id TransactionState.committed e.payload,
        length-append (entry_line e) (entry_lines es),
        length-append (entry_line marked) (entry_lines es),
      ))
      (λ _. omega (
        arith,
        length-commit id es,
        length-append (entry_line e) (entry_lines es),
        length-append (entry_line e) (entry_lines (commit_entries id es)),
      ))

IsFramed-commit :
    (id : TransactionId) (start : ℕ) (es : List Entry)
    → IsFramed start es
    → IsFramed start (commit_entries id es)
IsFramed-commit id start [] h = tt
IsFramed-commit id start (e ∷ es) h =
    let marked = record e { state = TransactionState.committed } in
    if-both (IsFramed start) (e.id == id) (marked ∷ es) (e ∷ commit_entries id es)
      (λ _. (
        h.0,
        h.1,
        subst (λ n. IsFramed (start + n) es)
            (length-frame_line e.id e.state e.payload
              ∙ sym (length-frame_line e.id TransactionState.committed e.payload))
            h.2,
      ))
      (λ _. (h.0, h.1, IsFramed-commit id (start + length (entry_line e)) es h.2))

committed_same : (s : TransactionState) → is_committed s ≡ true → s ≡ TransactionState.committed
committed_same TransactionState.committed h = refl
committed_same _ h = cc

abbrev pub unknown_id : Exception
unknown_id = logic_error (text "WalLogger: mark_committed on unknown transaction id")

-- What mark_in returns once the entries under the id are found or not.
abbrev pub marking : Bool → List Entry → Throws (List Entry)
marking true es = ok es
marking false es = throw unknown_id

module _ (d : Disk) (reliable : IsReliable d) (id : TransactionId) where
  mark_found :
      (e : Entry) (es : List Entry) (before : Bytes)
      → e.offset ≡ length before
      → (e.id == id) ≡ true
      → mark_in d id (e ∷ es) (before ++ (entry_line e ++ entry_lines es)) ≡ (
        ok (record e { state = TransactionState.committed } ∷ es),
        before ++ (entry_line (record e { state = TransactionState.committed }) ++ entry_lines es),
      )
  unfolding mark_in flip_state
  mark_found e es before here same = elim (Bool-cases (is_committed e.state)) [
    | inl done ↦
        let kept : record e { state = TransactionState.committed } ≡ e =
          λ i. record e { state = sym (committed_same e.state done) i } in
        rw (same, done)
          (λ i. (ok (sym kept i ∷ es), before ++ (entry_line (sym kept i) ++ entry_lines es)))
    | inr fresh ↦
        rw
          (
            same,
            fresh,
            reliable.puts (e.offset + state_field_pos) (state_byte TransactionState.committed)
                (before ++ (entry_line e ++ entry_lines es)),
            flipped before (entry_lines es) e here,
          )
          refl
  ]

  abbrev skipping : Entry → Throws (List Entry) × Bytes → Throws (List Entry) × Bytes
  skipping e later = elim later.0 [
    | throw ex ↦ (throw ex, later.1)
    | ok es ↦ (ok (e ∷ es), later.1)
  ]

  mark_skipped :
      (e : Entry) (es : List Entry) (file file' : Bytes) (b : Bool)
      → (e.id == id) ≡ false
      → mark_in d id es file ≡ (marking b (commit_entries id es), file')
      → mark_in d id (e ∷ es) file ≡ (marking b (e ∷ commit_entries id es), file')
  unfolding mark_in
  mark_skipped e es file file' true other h = rw other (ap (skipping e) h)
  mark_skipped e es file file' false other h = rw other (ap (skipping e) h)

  mark_nothing : (file : Bytes) → mark_in d id [] file ≡ (throw unknown_id, file)
  unfolding mark_in
  mark_nothing file = refl

  mark_in-Framed :
      (es : List Entry) (before : Bytes)
      → IsFramed (length before) es
      → mark_in d id es (before ++ entry_lines es) ≡ (
        marking (has_entry id es) (commit_entries id es),
        before ++ entry_lines (commit_entries id es),
      )
  mark_in-Framed [] before h = mark_nothing (before ++ [])
  mark_in-Framed (e ∷ es) before h = elim (Bool-cases (e.id == id)) [
    | inl same ↦ rw same (mark_found e es before h.0 same)
    | inr other ↦
        let behind = subst (λ n. IsFramed n es) (sym (length-append before (entry_line e))) h.2 in
        let result = marking (has_entry id es) (commit_entries id es) in
        let ih =
          ap (λ f. mark_in d id es f) (sym (append_assoc before (entry_line e) (entry_lines es)))
          ∙ mark_in-Framed es (before ++ entry_line e) behind
          ∙ ap (λ f. (result, f))
              (append_assoc before (entry_line e) (entry_lines (commit_entries id es))) in
        rw other (
          mark_skipped e es (before ++ (entry_line e ++ entry_lines es)) _ (has_entry id es) other
            ih)
  ]

-- The journal once the first entry under the id is marked.
abbrev pub with_commit : TransactionId → Wal → Wal
with_commit id w = record w {
  file = entry_lines (commit_entries id w.entries);
  entries = commit_entries id w.entries;
}

abbrev pub mark_result : Bool → Throws (Unit {0})
mark_result true = ok tt
mark_result false = throw unknown_id

unmarked :
    (id : TransactionId) (es : List Entry) → has_entry id es ≡ false → commit_entries id es ≡ es
unmarked id [] h = refl
unmarked id (e ∷ es) h = ground (arith, unmarked id es)

abbrev finish : Wal → Throws (List Entry) × Bytes → Throws (Unit {0}) × Wal
finish w r = elim r.0 [
  | throw ex ↦ (throw ex, record w { file = r.1 })
  | ok es ↦ (ok tt, record w { file = r.1; entries = es })
]

finished :
    (b : Bool) (id : TransactionId) (w : Wal)
    → (b ≡ false → commit_entries id w.entries ≡ w.entries)
    → finish w (marking b (commit_entries id w.entries), entry_lines (commit_entries id w.entries))
      ≡ (mark_result b, with_commit id w)
finished true id w h = refl
finished false id w h = λ i. (
  throw unknown_id,
  record w { file = entry_lines (commit_entries id w.entries); entries = sym (h refl) i },
)

-- mark_committed on a journal in step with its file.
pub mark_committed-Synced :
    (d : Disk) (reliable : IsReliable d) (id : TransactionId) (w : Wal)
    → IsSynced w
    → mark_committed d id w ≡ (mark_result (has_entry id w.entries), with_commit id w)
unfolding mark_committed
mark_committed-Synced d reliable id w h =
    ap (λ f. finish w (mark_in d id w.entries f)) h.in_file
    ∙ ap (finish w) (mark_in-Framed d reliable id w.entries [] h.framed)
    ∙ finished (has_entry id w.entries) id w (unmarked id w.entries)

pub with_commit-IsSynced : (id : TransactionId) (w : Wal) → IsSynced w → IsSynced (with_commit id w)
with_commit-IsSynced id w h = record {
  no_tail = h.no_tail;
  in_file = refl;
  at_end = h.at_end ∙ ap (length {A = ℕ}) h.in_file ∙ sym (length-commit id w.entries);
  framed = IsFramed-commit id 0 w.entries h.framed;
}
