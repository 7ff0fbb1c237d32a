-- ===== src/Concurrency/Processor/Restart.antt =====
-- src/concurrency/TransactionProcessor.cpp over the in-memory repositories: the constructor over
-- stores that an earlier processor has left, and the consumer that empties the queue.
use bank_managment_system.Prelude.{
  ℕ, ◌+◌, ◌%◌, ◌^◌, ◌<◌, ◌≤◌, ltb, ◌≡◌, refl, sym, subst, if◌then◌else◌, List, [], ◌∷◌, All,
  All-map, length, Distinct, arith,
}
use bank_managment_system.Prelude.Int.{ℤ}
use bank_managment_system.Prelude.Exec.{Throws, ok}
use bank_managment_system.Domain.Transaction.{TransactionRecord}
use bank_managment_system.Persistence.Wal.{Entry, Wal, Disk, open_journal}
use bank_managment_system.Persistence.Wal.Load.{load_all, load_entries}
use bank_managment_system.Persistence.Wal.Synced.{Holds, IsSynced, IsSynced-Agree, Agree-IsSynced}
use bank_managment_system.Persistence.Wal.Log.{IsFramed-Holds, load_held, load_nil}
use bank_managment_system.Concurrency.Processor.Local.{local, Local}
use bank_managment_system.Concurrency.Processor.Ids.{entry_ids}
use bank_managment_system.Concurrency.Processor.Invariant.{Inv}
use bank_managment_system.Concurrency.Processor.Stores.{Stores}
use bank_managment_system.Concurrency.Processor.Runs.{Call, run}
use bank_managment_system.Concurrency.Processor.RunStores.{IsJournalableCall, run-Stores}
use bank_managment_system.Persistence.Parser.Numbers.{IsInt}
use bank_managment_system.Persistence.Wal.Laws.{IsReliable}
use bank_managment_system.Concurrency.Processor.Construct.{max_id, fresh_processor, construct}

max_id-bounds :
    (m bound : ℕ) (rs : List TransactionRecord)
    → m < bound
    → All (λ (r : TransactionRecord). r.id < bound) rs
    → (m ≤ max_id m rs)
      × (max_id m rs < bound)
      × All (λ (r : TransactionRecord). r.id ≤ max_id m rs) rs
unfolding max_id
max_id-bounds m bound [] h below = (omega arith, h, tt)
max_id-bounds m bound (r ∷ rs) h below =
    let next = if ltb m r.id then r.id else m in
    let (up, in_bound, rest) = max_id-bounds next bound rs (ground (arith, below.0)) below.1 in
    (ground (arith, up), in_bound, (ground (arith, up), rest))

-- The ids that load_all shows are those of the entries.
load-ids :
    (P : ℕ → Type 0) (es : List Entry)
    → All Holds es
    → All P (entry_ids es)
    → All (λ (r : TransactionRecord). P r.id) (load_entries es)
load-ids P [] h below = rw load_nil tt
load-ids P (e ∷ es) h below =
    rw (load_held e es h.0) (subst P h.0.2 below.0, load-ids P es h.1 below.1)

ids-load :
    (P : ℕ → Type 0) (es : List Entry)
    → All Holds es
    → All (λ (r : TransactionRecord). P r.id) (load_entries es)
    → All P (entry_ids es)
ids-load P [] h below = tt
ids-load P (e ∷ es) h below =
    let shown = subst (All (λ (r : TransactionRecord). P r.id)) (load_held e es h.0) below in
    (subst P (sym h.0.2) shown.0, ids-load P es h.1 shown.1)

-- The next id, over stores whose ids are all below a bound.
next_id-bounds :
    (bound : ℕ) (rs : List TransactionRecord) (es : List Entry)
    → 0 < bound
    → All Holds es
    → All (λ (r : TransactionRecord). r.id < bound) rs
    → All (λ (i : ℕ). i < bound) (entry_ids es)
    → (max_id (max_id 0 rs) (load_entries es) + 1 ≤ bound)
      × All (λ (r : TransactionRecord). r.id < max_id (max_id 0 rs) (load_entries es) + 1) rs
      × All (λ (i : ℕ). i < max_id (max_id 0 rs) (load_entries es) + 1) (entry_ids es)
next_id-bounds bound rs es positive held stored journal =
    let (_, first_in, first_all) = max_id-bounds 0 bound rs positive stored in
    let (up, last_in, last_all) =
      max_id-bounds (max_id 0 rs) bound (load_entries es) first_in
        (load-ids (λ i. i < bound) es held journal) in
    let m = max_id (max_id 0 rs) (load_entries es) in
    (
      omega (arith, last_in),
      All-map (λ (r : TransactionRecord). r.id ≤ max_id 0 rs) (λ r. r.id < m + 1) rs
          (λ r le. omega (arith, up)) first_all,
      ids-load (λ i. i < m + 1) es held
          (All-map (λ (r : TransactionRecord). r.id ≤ m) (λ r. r.id < m + 1) (load_entries es)
            (λ r le. omega arith) last_all),
    )

module _ (disk : Disk) (time_at : ℕ → ℤ) where
  -- The processor that the constructor makes over the stores of another, its journal opened again.
  abbrev pub restart : Local disk time_at → Throws (Local disk time_at)
  restart p =
      construct (local disk time_at) p.accounts p.transactions p.audit
        (open_journal p.wal.path p.wal.file) p.clock_calls

  pub record Restarted (p q : Local disk time_at) : Type 0 where
    pub same_accounts : q.accounts ≡ p.accounts
    pub same_transactions : q.transactions ≡ p.transactions
    pub same_entries : q.wal.entries ≡ p.wal.entries
    pub invariant : Inv disk time_at q
    pub stores : Stores disk time_at q
    pub no_later : q.next_id ≤ p.next_id

  fresh-Restarted :
      (p : Local disk time_at) (w : Wal)
      → Inv disk time_at p
      → Stores disk time_at p
      → p.next_id < 2 ^ 63
      → IsSynced w
      → w.entries ≡ p.wal.entries
      → Restarted p (
          fresh_processor
            (local disk time_at)
            p.accounts
            p.transactions
            p.audit
            w
            p.clock_calls
            (max_id (max_id 0 p.transactions) (load_entries w.entries)))
  fresh-Restarted p w h s room synced same =
      let m = max_id (max_id 0 p.transactions) (load_entries w.entries) in
      let (le, stored, journal) =
        next_id-bounds p.next_id p.transactions w.entries s.positive
          (IsFramed-Holds 0 w.entries synced.framed) s.stored_below
          (subst (λ es. All (λ (i : ℕ). i < p.next_id) (entry_ids es)) (sym same)
            h.ids.journal_below) in
      let no_wrap : (m + 1) % 2 ^ 64 ≡ m + 1 = omega (arith, le) in
      record {
        same_accounts = refl;
        same_transactions = refl;
        same_entries = same;
        invariant = record {
          ledger = h.ledger;
          ids = record {
            journal_below = rw no_wrap journal;
            journal_distinct =
                subst (λ es. Distinct (entry_ids es)) (sym same) h.ids.journal_distinct;
            reserved_below = tt;
            reserved_distinct = tt;
            apart = tt;
          };
          paired = refl;
          open_queue = refl;
        };
        stores = record {
          positive = rw no_wrap (omega arith);
          synced = synced;
          stored_below = rw no_wrap stored;
          queue_writable = tt;
        };
        no_later = rw no_wrap le;
      }

  pub restart-Restarted :
      (p : Local disk time_at)
      → Inv disk time_at p
      → Stores disk time_at p
      → p.next_id < 2 ^ 63
      → (q : Local disk time_at) × (restart p ≡ ok q) × Restarted p q
  unfolding construct load_all
  restart-Restarted p h s room =
      let w = open_journal p.wal.path p.wal.file in
      let agree = IsSynced-Agree p.wal s.synced in
      (
        _,
        refl,
        fresh-Restarted p w h s room (Agree-IsSynced p.wal w agree s.synced)
            (sym agree.same_entries),
      )

-- Whatever calls of submit, process_one and process_next are made on a processor that keeps the
-- invariant and whose stores fit, by a clock within int64_t, of transactions whose account ids and
-- amounts are below 2^63, and as long as ids below 2^63 are left: if the process ends then, and a
-- new one opens the journal's file and makes a processor over the same stores, its constructor
-- returns; the accounts, the records and the journal's entries are as they were, the invariant
-- holds again, so that the new processor's next id lies above every id of the journal, and that id
-- is not above what the old processor's was.
pub run-Restarted :
    (disk : Disk) (time_at : ℕ → ℤ) (cs : List Call) (p : Local disk time_at)
    → IsReliable disk
    → ((n : ℕ) → IsInt (time_at n))
    → All IsJournalableCall cs
    → Inv disk time_at p
    → Stores disk time_at p
    → p.next_id + length cs < 2 ^ 63
    → let end = (run (local disk time_at) cs p).1 in
      (q : Local disk time_at) × (restart disk time_at end ≡ ok q) × Restarted disk time_at end q
run-Restarted disk time_at cs p reliable in_range journalable h s room =
    let (h', s', room') = run-Stores disk time_at reliable in_range cs p journalable h s room in
    restart-Restarted disk time_at (run (local disk time_at) cs p).1 h' s' room'
