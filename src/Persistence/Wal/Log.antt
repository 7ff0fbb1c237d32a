-- ===== src/Persistence/Wal/Log.antt =====
-- src/persistence/WalLogger.cpp: a list of records as the specification of the journal, and what
-- load_all and replay_from make of its entries.
use bank_managment_system.Prelude.{
  ℕ, zero, suc, ◌==◌, leb, ◌+◌, All, ◌≡◌, true, false, Bool, ◌||◌, refl, ap, sym, subst, ◌∙◌,
  if◌then◌else◌, if-both, List, [], ◌∷◌, ◌++◌, length, drop, arith, Bool-cases, inl, inr,
}
use bank_managment_system.Prelude.Exec.{Throws, ok, Exec}
use bank_managment_system.Domain.Types.{TransactionId, TransactionState}
use bank_managment_system.Domain.Transaction.{TransactionRecord}
use bank_managment_system.Persistence.Deserializer.{deserialize_transaction}
use bank_managment_system.Persistence.Deserializer.Lines.{
  IsReadBack, as_stored, deserialize_transaction-serialize,
}
use bank_managment_system.Persistence.Wal.{Entry, Wal, Disk, append, mark_committed}
use bank_managment_system.Persistence.Wal.Laws.{entry_of}
use bank_managment_system.Persistence.Wal.Load.{load_all, load_entries, keep_record, replay_from}
use bank_managment_system.Persistence.Wal.Synced.{entry_line, Holds, IsFramed}
use bank_managment_system.Persistence.Wal.Marked.{commit_entries, has_entry, mark_result}

-- The calls that change a journal.
pub data Command : Type 0 where
  appending : TransactionRecord → Command
  committing : TransactionId → Command

abbrev pub run_command : Disk → Command → Exec Wal (Unit {0})
run_command d (appending r) = append d r
run_command d (committing id) = mark_committed d id

-- The specification: the log is a list of records.
abbrev pub Log : Type 0
Log = List TransactionRecord

abbrev pub has_record : TransactionId → Log → Bool
has_record id [] = false
has_record id (r ∷ rs) = r.id == id || has_record id rs

abbrev pub commit_record : TransactionId → Log → Log
commit_record id [] = []
commit_record id (r ∷ rs) =
    if r.id == id
    then record r { state = TransactionState.committed } ∷ rs
    else r ∷ commit_record id rs

abbrev pub log_command : Command → Exec Log (Unit {0})
log_command (appending r) log = (ok tt, log ++ as_stored r ∷ [])
log_command (committing id) log = (mark_result (has_record id log), commit_record id log)

-- The results of some calls, one after the other, and the state after them.
abbrev pub run_all {ℓ} :
    {S : Type ℓ} → (Command → Exec S (Unit {0})) → List Command → S → List (Throws (Unit {0})) × S
run_all step [] s = ([], s)
run_all step (c ∷ cs) s =
    let (result, s') = step c s in
    let (results, s'') = run_all step cs s' in (result ∷ results, s'')

abbrev pub IsReadBackCommand : Command → Type 0
IsReadBackCommand (appending r) = IsReadBack r
IsReadBackCommand (committing id) = Unit

pub load_held :
    (e : Entry) (es : List Entry) (h : Holds e)
    → load_entries (e ∷ es) ≡ record (as_stored h.0) { state = e.state } ∷ load_entries es
unfolding load_entries
load_held e es (r, writable, _, same) =
    ap (λ o. keep_record e.state o (load_entries es))
      (ap deserialize_transaction same ∙ deserialize_transaction-serialize r writable)

pub load_nil : load_entries [] ≡ []
unfolding load_entries
load_nil = refl

pub IsFramed-Holds : (start : ℕ) (es : List Entry) → IsFramed start es → All Holds es
IsFramed-Holds start [] h = tt
IsFramed-Holds start (e ∷ es) h = (h.1, IsFramed-Holds (start + length (entry_line e)) es h.2)

pub load_snoc :
    (es : List Entry) (r : TransactionRecord) (offset : ℕ)
    → All Holds es
    → IsReadBack r
    → load_entries (es ++ entry_of r offset ∷ []) ≡ load_entries es ++ as_stored r ∷ []
load_snoc [] r offset h writable =
    load_held (entry_of r offset) [] (r, writable, refl, refl) ∙ rw load_nil refl
load_snoc (e ∷ es) r offset h writable =
    load_held e (es ++ entry_of r offset ∷ []) h.0
    ∙ ap (λ l. record (as_stored h.0.0) { state = e.state } ∷ l)
        (load_snoc es r offset h.1 writable)
    ∙ ap (λ l. l ++ as_stored r ∷ []) (sym (load_held e es h.0))

pub load_commit :
    (id : TransactionId) (es : List Entry)
    → All Holds es
    → load_entries (commit_entries id es) ≡ commit_record id (load_entries es)
load_commit id [] h = rw load_nil refl
load_commit id (e ∷ es) h = elim (Bool-cases (e.id == id)) [
  | inl found ↦
      let found' = subst (λ n. (n == id) ≡ true) h.0.2 found in
      let marked : Entry = record e { state = TransactionState.committed } in
      rw (found, load_held e es h.0, found') (load_held marked es h.0)
  | inr other ↦
      let other' = subst (λ n. (n == id) ≡ false) h.0.2 other in
      rw (other, load_held e es h.0, other')
        (load_held e (commit_entries id es) h.0
          ∙ ap (λ l. record (as_stored h.0.0) { state = e.state } ∷ l) (load_commit id es h.1))
]

pub has_load :
    (id : TransactionId) (es : List Entry)
    → All Holds es
    → has_entry id es ≡ has_record id (load_entries es)
has_load id [] h = rw load_nil refl
has_load id (e ∷ es) h =
    rw (load_held e es h.0, ← has_load id es h.1) (ap (λ (n : ℕ). n == id || has_entry id es) h.0.2)

load_drop :
    (n : ℕ) (es : List Entry) → All Holds es → load_entries (drop n es) ≡ drop n (load_entries es)
load_drop zero es h = refl
load_drop (suc n) [] h = rw load_nil refl
load_drop (suc n) (e ∷ es) h = load_drop n es h.1 ∙ ap (drop (suc n)) (sym (load_held e es h.0))

pub length-load : (es : List Entry) → All Holds es → length es ≡ length (load_entries es)
length-load [] h = rw load_nil refl
length-load (e ∷ es) h = rw (load_held e es h.0) (ap suc (length-load es h.1))

drop_all : (n : ℕ) (rs : Log) → leb (length rs) n ≡ true → drop n rs ≡ []
drop_all zero [] h = refl
drop_all zero (r ∷ rs) h = absurd (ground arith)
drop_all (suc n) [] h = refl
drop_all (suc n) (r ∷ rs) h = drop_all n rs (ground arith)

-- replay_from skips what a snapshot already holds.
pub replay_from-drop :
    (n : ℕ) (w : Wal) → All Holds w.entries → replay_from n w ≡ drop n (load_all w)
unfolding replay_from load_all
replay_from-drop n w h =
    if-both (λ l. l ≡ drop n (load_entries w.entries)) (leb (length w.entries) n) []
      (load_entries (drop n w.entries))
      (λ past. sym (
        drop_all n (load_entries w.entries)
          (subst (λ m. leb m n ≡ true) (length-load w.entries h) past)))
      (λ _. load_drop n w.entries h)
