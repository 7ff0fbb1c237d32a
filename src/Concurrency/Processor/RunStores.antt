-- ===== src/Concurrency/Processor/RunStores.antt =====
-- src/concurrency/TransactionProcessor.cpp over the in-memory repositories: the stores after any
-- sequence of calls.
use bank_managment_system.Prelude.{
  ℕ, ◌+◌, ◌^◌, ◌<◌, ◌≡◌, refl, ap, subst, Bool-cases, inl, inr, List, [], ◌∷◌, All, All-append,
  All-map, length, arith,
}
use bank_managment_system.Prelude.Int.{ℤ}
use bank_managment_system.Prelude.Exec.{then-ok}
use bank_managment_system.Domain.Types.{TransactionId}
use bank_managment_system.Domain.Transaction.{Transaction, TransactionRecord}
use bank_managment_system.Persistence.Parser.Numbers.{IsInt}
use bank_managment_system.Persistence.Wal.{Disk}
use bank_managment_system.Persistence.Wal.Laws.{IsReliable}
use bank_managment_system.Concurrency.Processor.{process_one}
use bank_managment_system.Concurrency.Processor.Local.{local, Local}
use bank_managment_system.Concurrency.Processor.Ids.{next-fresh, next-apart}
use bank_managment_system.Concurrency.Processor.Invariant.{Inv, process-returns}
use bank_managment_system.Concurrency.Processor.Steps.{
  dropped, advanced, process_one_lem, queued, submit_accepting, submit_stopped, next_empty,
  next_taken, popped,
}
use bank_managment_system.Concurrency.Processor.Front.{front_ids, front-returns}
use bank_managment_system.Concurrency.Processor.Runs.{
  Call, submits, processes, takes_next, perform, run, perform-Keeps, advanced-Inv,
}
use bank_managment_system.Concurrency.Processor.Stores.{IsJournalable, Stores, process-Stores}

abbrev pub IsJournalableCall : Call → Type 0
IsJournalableCall (submits txn) = IsJournalable txn
IsJournalableCall (processes txn) = IsJournalable txn
IsJournalableCall takes_next = Unit

module _ (disk : Disk) (time_at : ℕ → ℤ) where
  advanced-Stores :
      (p : Local disk time_at)
      → Stores disk time_at p
      → Stores disk time_at (advanced disk time_at p)
  advanced-Stores p s = record {
    positive = omega (arith, s.positive);
    synced = s.synced;
    stored_below =
        All-map (λ (r : TransactionRecord). r.id < p.next_id) (λ r. r.id < p.next_id + 1)
          p.transactions (λ r lt. omega arith) s.stored_below;
    queue_writable = s.queue_writable;
  }

  queued-Stores :
      (txn : Transaction) (p : Local disk time_at)
      → IsJournalable txn
      → Stores disk time_at p
      → Stores disk time_at (queued disk time_at txn p)
  queued-Stores txn p h s = record {
    positive = omega (arith, s.positive);
    synced = s.synced;
    stored_below = (advanced-Stores p s).stored_below;
    queue_writable = All-append IsJournalable p.queue.items (txn ∷ []) s.queue_writable (h, tt);
  }

  popped-Stores :
      (p : Local disk time_at) (txn : Transaction) (items : List Transaction)
      (reserved : List TransactionId)
      → p.queue.items ≡ txn ∷ items
      → Stores disk time_at p
      → IsJournalable txn × Stores disk time_at (popped disk time_at items reserved p)
  popped-Stores p txn items reserved e s =
      let queue = subst (All IsJournalable) e s.queue_writable in
      (
        queue.0,
        record {
          positive = s.positive;
          synced = s.synced;
          stored_below = s.stored_below;
          queue_writable = queue.1;
        },
      )

module _ (disk : Disk) (time_at : ℕ → ℤ) (reliable : IsReliable disk)
    (in_range : (n : ℕ) → IsInt (time_at n)) where
  processes-Stores :
      (txn : Transaction) (p : Local disk time_at)
      → IsJournalable txn
      → Inv disk time_at p
      → Stores disk time_at p
      → p.next_id + 1 < 2 ^ 63
      → Stores disk time_at (perform (local disk time_at) (processes txn) p).1
  processes-Stores txn p journalable h s room =
      let fits : p.next_id + 1 < 2 ^ 64 = omega arith in
      let below : p.next_id < p.next_id + 1 = omega arith in
      let (r, e) =
        process-returns disk time_at reliable txn p.next_id (advanced disk time_at p)
          (advanced-Inv disk time_at reliable p h) below (next-fresh h.ids) (next-apart h.ids) in
      rw
        (dropped disk time_at (process_one (local disk time_at) txn) p r
          (rw (process_one_lem disk time_at txn p fits) e))
        (rw (process_one_lem disk time_at txn p fits) (
          process-Stores disk time_at reliable in_range txn p.next_id (advanced disk time_at p)
            journalable (omega arith) below (next-fresh h.ids) (advanced-Stores disk time_at p s)))

  submits-Stores :
      (txn : Transaction) (p : Local disk time_at)
      → IsJournalable txn
      → Inv disk time_at p
      → Stores disk time_at p
      → p.next_id + 1 < 2 ^ 63
      → Stores disk time_at (perform (local disk time_at) (submits txn) p).1
  submits-Stores txn p journalable h s room = elim (Bool-cases p.accepting) [
    | inl accepting ↦
        rw (submit_accepting disk time_at txn p accepting h.open_queue (omega arith))
          (queued-Stores disk time_at txn p journalable s)
    | inr stopped ↦ rw (submit_stopped disk time_at txn p stopped) s
  ]

  front-Stores :
      (p : Local disk time_at) (h : Inv disk time_at p) (txn : Transaction)
      (items : List Transaction) (id : TransactionId) (reserved : List TransactionId)
      → p.queue.items ≡ txn ∷ items
      → p.reserved ≡ id ∷ reserved
      → Stores disk time_at p
      → p.next_id + 1 < 2 ^ 63
      → Stores disk time_at (perform (local disk time_at) takes_next p).1
  front-Stores p h txn items id reserved e f s room =
      let (r, g) = front-returns disk time_at reliable p h txn items id reserved e f in
      let ids = front_ids disk time_at reliable p h txn items id reserved e f in
      let (journalable, rest) = popped-Stores disk time_at p txn items reserved e s in
      let below = ids.reserved_below.0 in
      rw (next_taken disk time_at p txn items id reserved r e f g) (
        process-Stores disk time_at reliable in_range txn id (popped disk time_at items reserved p)
          journalable (omega arith) below ids.apart.0 rest)

  next-Stores :
      (p : Local disk time_at) (items : List Transaction) (reserved : List TransactionId)
      → p.queue.items ≡ items
      → p.reserved ≡ reserved
      → Inv disk time_at p
      → Stores disk time_at p
      → p.next_id + 1 < 2 ^ 63
      → Stores disk time_at (perform (local disk time_at) takes_next p).1
  next-Stores p [] reserved e f h s room = rw (next_empty disk time_at p e) s
  next-Stores p (txn ∷ items) [] e f h s room =
      absurd (
        omega (arith, h.paired, ap (length {A = Transaction}) e, ap (length {A = TransactionId}) f))
  next-Stores p (txn ∷ items) (id ∷ reserved) e f h s room =
      front-Stores p h txn items id reserved e f s room

  perform-Stores :
      (c : Call) (p : Local disk time_at)
      → IsJournalableCall c
      → Inv disk time_at p
      → Stores disk time_at p
      → p.next_id + 1 < 2 ^ 63
      → Stores disk time_at (perform (local disk time_at) c p).1
  perform-Stores (submits txn) p j h s room = submits-Stores txn p j h s room
  perform-Stores (processes txn) p j h s room = processes-Stores txn p j h s room
  perform-Stores takes_next p j h s room = next-Stores p p.queue.items p.reserved refl refl h s room

  pub run-Stores :
      (cs : List Call) (p : Local disk time_at)
      → All IsJournalableCall cs
      → Inv disk time_at p
      → Stores disk time_at p
      → p.next_id + length cs < 2 ^ 63
      → Inv disk time_at (run (local disk time_at) cs p).1
        × Stores disk time_at (run (local disk time_at) cs p).1
        × ((run (local disk time_at) cs p).1.next_id < 2 ^ 63)
  unfolding run
  run-Stores [] p j h s room = (h, s, omega arith)
  run-Stores (c ∷ cs) p j h s room =
      let k = perform-Keeps disk time_at reliable c p h (omega arith) in
      let s' = perform-Stores c p j.0 h s (omega arith) in
      let p' = (perform (local disk time_at) c p).1 in
      let rest = run-Stores cs p' j.1 k.kept s' (omega (arith, k.one_id)) in
      rw
        (then-ok (perform (local disk time_at) c) (run (local disk time_at) cs) p p' tt
          (λ i. (k.returned i, p')))
        rest
