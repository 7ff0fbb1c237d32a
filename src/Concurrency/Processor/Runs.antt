-- ===== src/Concurrency/Processor/Runs.antt =====
-- src/concurrency/TransactionProcessor.cpp over the in-memory repositories: any sequence of calls.
use bank_managment_system.Prelude.{
  ℕ, ◌+◌, ◌≤◌, ◌<◌, ◌^◌, ◌≡◌, refl, ap, Bool-cases, inl, inr, List, [], ◌∷◌, length, length-append,
  arith,
}
use bank_managment_system.Prelude.Int.{ℤ}
use bank_managment_system.Prelude.Exec.{Throws, ok, pure, then-ok, ◌>>=◌, ◌>>◌}
use bank_managment_system.Domain.Types.{TransactionId}
use bank_managment_system.Domain.Transaction.{Transaction}
use bank_managment_system.Persistence.Wal.{Disk}
use bank_managment_system.Persistence.Wal.Laws.{IsReliable}
use bank_managment_system.Concurrency.Processor.{
  Services, Action, process_one, submit, process_next,
}
use bank_managment_system.Concurrency.Processor.Local.{local, Local}
use bank_managment_system.Concurrency.Processor.Ids.{Ids-next, Ids-reserve, next-fresh, next-apart}
use bank_managment_system.Concurrency.Processor.Steps.{
  dropped, advanced, process_one_lem, queued, submit_accepting, submit_stopped, next_empty,
  next_taken,
}
use bank_managment_system.Concurrency.Processor.Invariant.{
  Inv, process-Kept, process-returns, process-Inv,
}
use bank_managment_system.Concurrency.Processor.Front.{front-returns, front-Inv, front-Kept}

-- A call of the processor from outside.
pub data Call : Type 0 where
  submits processes : Transaction → Call
  takes_next : Call

module _ (s : Services) where
  abbrev pub perform : Call → Action s (Unit {0})
  perform (submits txn) = do r ← submit s txn; pure tt
  perform (processes txn) = do r ← process_one s txn; pure tt
  perform takes_next = do r ← process_next s; pure tt

  -- The calls, one after the other.
  unfoldable pub run : List Call → Action s (Unit {0})
  run [] = pure tt
  run (c ∷ cs) = do perform c; run cs

module _ (disk : Disk) (time_at : ℕ → ℤ) (reliable : IsReliable disk) where
  -- What a call does that returns: it keeps the invariant and takes one id at most.
  pub record Keeps (p : Local disk time_at) (out : Throws (Unit {0}) × Local disk time_at)
      : Type 0 where
    pub returned : out.0 ≡ ok tt
    pub kept : Inv disk time_at out.1
    pub one_id : out.1.next_id ≤ p.next_id + 1

  pub advanced-Inv :
      (p : Local disk time_at) → Inv disk time_at p → Inv disk time_at (advanced disk time_at p)
  advanced-Inv p h = record {
    ledger = h.ledger;
    ids = Ids-next h.ids;
    paired = h.paired;
    open_queue = h.open_queue;
  }

  queued-Inv :
      (txn : Transaction) (p : Local disk time_at)
      → Inv disk time_at p
      → Inv disk time_at (queued disk time_at txn p)
  queued-Inv txn p h = record {
    ledger = h.ledger;
    ids = Ids-reserve h.ids;
    paired = omega (
      arith,
      h.paired,
      length-append p.reserved (p.next_id ∷ []),
      length-append p.queue.items (txn ∷ []),
    );
    open_queue = h.open_queue;
  }

  processes-Keeps :
      (txn : Transaction) (p : Local disk time_at)
      → Inv disk time_at p
      → p.next_id + 1 < 2 ^ 64
      → Keeps p (perform (local disk time_at) (processes txn) p)
  processes-Keeps txn p h room =
      let h1 = advanced-Inv p h in
      let below : p.next_id < p.next_id + 1 = omega arith in
      let fresh = next-fresh h.ids in
      let apart = next-apart h.ids in
      let (r, e) =
        process-returns disk time_at reliable txn p.next_id (advanced disk time_at p) h1 below fresh
          apart in
      let k =
        process-Kept disk time_at reliable txn p.next_id (advanced disk time_at p) h1 below fresh
          apart in
      rw
        (dropped disk time_at (process_one (local disk time_at) txn) p r
          (rw (process_one_lem disk time_at txn p room) e))
        (rw (process_one_lem disk time_at txn p room) (record {
          returned = refl;
          kept =
              process-Inv disk time_at reliable txn p.next_id (advanced disk time_at p) h1 below
                fresh apart;
          one_id = rw k.same_next (omega arith);
        }))

  submits-Keeps :
      (txn : Transaction) (p : Local disk time_at)
      → Inv disk time_at p
      → p.next_id + 1 < 2 ^ 64
      → Keeps p (perform (local disk time_at) (submits txn) p)
  submits-Keeps txn p h room = elim (Bool-cases p.accepting) [
    | inl accepting ↦
        rw (submit_accepting disk time_at txn p accepting h.open_queue room)
          (record { returned = refl; kept = queued-Inv txn p h; one_id = omega arith })
    | inr stopped ↦
        rw (submit_stopped disk time_at txn p stopped)
          (record { returned = refl; kept = h; one_id = omega arith })
  ]

  front-Keeps :
      (p : Local disk time_at) (h : Inv disk time_at p) (txn : Transaction)
      (items : List Transaction) (id : TransactionId) (reserved : List TransactionId)
      → p.queue.items ≡ txn ∷ items
      → p.reserved ≡ id ∷ reserved
      → Keeps p (perform (local disk time_at) takes_next p)
  front-Keeps p h txn items id reserved e f =
      let (r, g) = front-returns disk time_at reliable p h txn items id reserved e f in
      rw (next_taken disk time_at p txn items id reserved r e f g) (record {
        returned = refl;
        kept = front-Inv disk time_at reliable p h txn items id reserved e f;
        one_id =
            rw (front-Kept disk time_at reliable p h txn items id reserved e f).same_next
              (omega arith);
      })

  next-Keeps :
      (p : Local disk time_at)
      → Inv disk time_at p
      → Keeps p (perform (local disk time_at) takes_next p)
  next-Keeps p h = with_front p.queue.items p.reserved refl refl
    where
      with_front :
          (items : List Transaction) (reserved : List TransactionId)
          → p.queue.items ≡ items
          → p.reserved ≡ reserved
          → Keeps p (perform (local disk time_at) takes_next p)
      with_front [] reserved e f =
          rw (next_empty disk time_at p e)
            (record { returned = refl; kept = h; one_id = omega arith })
      with_front (txn ∷ items) [] e f = absurd (
          omega
            (arith, h.paired, ap (length {A = Transaction}) e, ap (length {A = TransactionId}) f))
      with_front (txn ∷ items) (id ∷ reserved) e f = front-Keeps p h txn items id reserved e f

  pub perform-Keeps :
      (c : Call) (p : Local disk time_at)
      → Inv disk time_at p
      → p.next_id + 1 < 2 ^ 64
      → Keeps p (perform (local disk time_at) c p)
  perform-Keeps (submits txn) p h room = submits-Keeps txn p h room
  perform-Keeps (processes txn) p h room = processes-Keeps txn p h room
  perform-Keeps takes_next p h room = next-Keeps p h

  -- Whatever calls are made, in whatever order, none throws as long as ids are left, and afterwards
  -- the accounts are a ledger, the journal and the reserved ids are all different and below the
  -- next id, and each queued transaction has its reserved id.
  pub run-Inv :
      (cs : List Call) (p : Local disk time_at)
      → Inv disk time_at p
      → p.next_id + length cs < 2 ^ 64
      → ((run (local disk time_at) cs p).0 ≡ ok tt)
        × Inv disk time_at (run (local disk time_at) cs p).1
  unfolding run
  run-Inv [] p h room = (refl, h)
  run-Inv (c ∷ cs) p h room =
      let k = perform-Keeps c p h (omega arith) in
      let rest = run-Inv cs (perform (local disk time_at) c p).1 k.kept (omega (arith, k.one_id)) in
      rw
        (then-ok (perform (local disk time_at) c) (run (local disk time_at) cs) p
          (perform (local disk time_at) c p).1 tt
          (λ i. (k.returned i, (perform (local disk time_at) c p).1)))
        rest
