-- ===== src/Concurrency/Processor/Drain.antt =====
-- src/concurrency/TransactionProcessor.cpp over the in-memory repositories: process_until_empty.
use bank_managment_system.Prelude.{
  ℕ, zero, suc, ◌<◌, ◌≡◌, refl, ap, subst, Option, none, some, List, [], ◌∷◌, length, arith,
}
use bank_managment_system.Prelude.Int.{ℤ}
use bank_managment_system.Prelude.Exec.{Throws, ok, bind-ok, pure, ◌>>=◌}
use bank_managment_system.Prelude.Text.{Bytes}
use bank_managment_system.Core.{Result}
use bank_managment_system.Domain.Types.{TransactionId}
use bank_managment_system.Domain.Transaction.{Transaction, TransactionRecord}
use bank_managment_system.Persistence.Wal.{Disk}
use bank_managment_system.Persistence.Wal.Laws.{IsReliable}
use bank_managment_system.Concurrency.Queue.{size}
use bank_managment_system.Concurrency.Processor.{process_impl, process_rounds, process_until_empty}
use bank_managment_system.Concurrency.Processor.Local.{local, Local}
use bank_managment_system.Concurrency.Processor.Trail.{
  Describes, Traced, Traces, process_impl-Traces,
}
use bank_managment_system.Concurrency.Processor.Invariant.{Inv}
use bank_managment_system.Concurrency.Processor.Steps.{popped, next_empty, next_taken}
use bank_managment_system.Concurrency.Processor.Front.{
  front_ids, front-returns, front-Inv, front-queue,
}

module _ (disk : Disk) (time_at : ℕ → ℤ) where
  -- The answer to one queued transaction: a success carries its record under its reserved id.
  abbrev pub AnswersOne : Transaction → TransactionId → Option TransactionRecord → Type 0
  AnswersOne txn id none = Unit
  AnswersOne txn id (some r) = Describes disk time_at txn id r

  -- One answer for each transaction, in the order of the queue.
  abbrev pub Answers :
      List Transaction → List TransactionId → List (Result TransactionRecord) → Type 0
  Answers [] [] [] = Unit
  Answers (t ∷ ts) (i ∷ is) (r ∷ rs) = AnswersOne t i r.result_value × Answers ts is rs
  Answers _ _ _ = ⊥

  pub record Drained (items : List Transaction) (reserved : List TransactionId)
      (out : Throws (List (Result TransactionRecord)) × Local disk time_at) : Type 0 where
    pub results : List (Result TransactionRecord)
    pub returned : out.0 ≡ ok results
    pub answers : Answers items reserved results
    pub no_items : out.1.queue.items ≡ []
    pub no_reserved : out.1.reserved ≡ []
    pub kept : Inv disk time_at out.1

  answered_some :
      (txn : Transaction) (id : TransactionId) (error : Bytes) (r : Option TransactionRecord)
      (p p' : Local disk time_at)
      → Traced disk time_at txn id error r p p'
      → AnswersOne txn id r
  answered_some txn id error none p p' h = tt
  answered_some txn id error (some r) p p' h = h.0

  answered :
      (txn : Transaction) (id : TransactionId) (p : Local disk time_at)
      (r : Result TransactionRecord) (out : Throws (Result TransactionRecord) × Local disk time_at)
      → out.0 ≡ ok r
      → Traces disk time_at txn id p out
      → AnswersOne txn id r.result_value
  answered txn id p r out e h =
      answered_some txn id r.error r.result_value p out.1
        (subst (λ x. Traces disk time_at txn id p (x, out.1)) e h)

module _ (disk : Disk) (time_at : ℕ → ℤ) (reliable : IsReliable disk) where
  -- The rest of the loop, with the first answer in front.
  Drained-cons :
      (t : Transaction) (ts : List Transaction) (i : TransactionId) (is : List TransactionId)
      (r : Result TransactionRecord) (rounds : ℕ) (p : Local disk time_at)
      → AnswersOne disk time_at t i r.result_value
      → Drained disk time_at ts is (process_rounds (local disk time_at) rounds p)
      → Drained disk time_at
          (t ∷ ts)
          (i ∷ is)
          ((process_rounds (local disk time_at) rounds >>= (λ later. pure (r ∷ later))) p)
  Drained-cons t ts i is r rounds p one rest =
      rw
        (bind-ok (process_rounds (local disk time_at) rounds) (λ later. pure (r ∷ later)) p _
          rest.results (λ j. (rest.returned j, (process_rounds (local disk time_at) rounds p).1)))
        (record {
          results = r ∷ rest.results;
          returned = refl;
          answers = (one, rest.answers);
          no_items = rest.no_items;
          no_reserved = rest.no_reserved;
          kept = rest.kept;
        })

  rounds-Drained :
      (rounds : ℕ) (items : List Transaction) (reserved : List TransactionId)
      (p : Local disk time_at)
      → Inv disk time_at p
      → p.queue.items ≡ items
      → p.reserved ≡ reserved
      → length items < rounds
      → Drained disk time_at items reserved (process_rounds (local disk time_at) rounds p)
  unfolding process_rounds
  rounds-Drained zero items reserved p h e f enough = absurd (omega arith)
  rounds-Drained (suc rounds) [] [] p h e f enough = rw (next_empty disk time_at p e) (record {
    results = [];
    returned = refl;
    answers = tt;
    no_items = e;
    no_reserved = f;
    kept = h;
  })
  rounds-Drained (suc rounds) [] (i ∷ is) p h e f enough =
      absurd (
        omega (arith, h.paired, ap (length {A = Transaction}) e, ap (length {A = TransactionId}) f))
  rounds-Drained (suc rounds) (t ∷ ts) [] p h e f enough =
      absurd (
        omega (arith, h.paired, ap (length {A = Transaction}) e, ap (length {A = TransactionId}) f))
  rounds-Drained (suc rounds) (t ∷ ts) (i ∷ is) p h e f enough =
      let (r, g) = front-returns disk time_at reliable p h t ts i is e f in
      let one = answered disk time_at t i (popped disk time_at ts is p) r _ g (
        process_impl-Traces disk time_at t i (popped disk time_at ts is p) reliable
          (front_ids disk time_at reliable p h t ts i is e f).apart.0) in
      let queue = front-queue disk time_at reliable p h t ts i is e f in
      let p' = (process_impl (local disk time_at) t i (popped disk time_at ts is p)).1 in
      let rest =
        rounds-Drained rounds ts is p' (front-Inv disk time_at reliable p h t ts i is e f) queue.0
          queue.1 (omega arith) in
      rw (next_taken disk time_at p t ts i is r e f g) (Drained-cons t ts i is r rounds p' one rest)

  -- From a state that keeps the invariant, process_until_empty returns: the queue and the reserved
  -- ids are then empty, every queued transaction has one answer, in the order of the queue, a
  -- success carries the committed record of its transaction under the id that was reserved for it,
  -- and the invariant holds again.
  pub process_until_empty-Drained :
      (p : Local disk time_at)
      → Inv disk time_at p
      → Drained disk time_at p.queue.items p.reserved (process_until_empty (local disk time_at) p)
  unfolding process_until_empty size
  process_until_empty-Drained p h =
      rounds-Drained (suc (length p.queue.items)) p.queue.items p.reserved p h refl refl
        (omega arith)
