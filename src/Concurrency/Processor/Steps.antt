-- ===== src/Concurrency/Processor/Steps.antt =====
-- src/concurrency/TransactionProcessor.cpp over the in-memory repositories: submit, process_one and
-- process_next, one step at a time.
use bank_managment_system.Prelude.{
  ℕ, ◌+◌, ◌%◌, ◌<◌, ◌^◌, ◌≡◌, refl, ap, ◌∙◌, true, false, none, some, List, [], ◌∷◌, ◌++◌, arith,
}
use bank_managment_system.Prelude.Int.{ℤ}
use bank_managment_system.Prelude.Text.{text}
use bank_managment_system.Prelude.Exec.{ok, pure, bind-ok, ◌>>=◌}
use bank_managment_system.Core.{Result, success, failure}
use bank_managment_system.Domain.Types.{TransactionId}
use bank_managment_system.Domain.Transaction.{Transaction, TransactionRecord}
use bank_managment_system.Persistence.Wal.{Disk}
use bank_managment_system.Concurrency.Queue.{TransactionQueue, enqueue, try_pop, pop_items}
use bank_managment_system.Concurrency.Processor.{
  Action, process_impl, process_one, submit, submit_when, process_next, process_popped,
  pop_reserved, take_reserved_id,
}
use bank_managment_system.Concurrency.Processor.Local.{local, Local}

module _ (disk : Disk) (time_at : ℕ → ℤ) where
  -- fetch_add on a uint64_t that has room.
  pub fetched : (n : ℕ) → n + 1 < 2 ^ 64 → (n + 1) % 2 ^ 64 ≡ n + 1
  fetched n h = omega arith

  -- A result that perform drops.
  pub dropped :
      {A : Type 0} (m : Action (local disk time_at) A) (p : Local disk time_at) (a : A)
      → (m p).0 ≡ ok a
      → ◌>>=◌ {B = Unit {0}} m (λ _. pure tt) p ≡ (ok tt, (m p).1)
  dropped m p a e = bind-ok m (λ _. pure tt) p (m p).1 a (λ i. (e i, (m p).1))

  abbrev pub advanced : Local disk time_at → Local disk time_at
  advanced p = record p { next_id = p.next_id + 1 }

  pub process_one_lem :
      (txn : Transaction) (p : Local disk time_at)
      → p.next_id + 1 < 2 ^ 64
      → process_one (local disk time_at) txn p
        ≡ process_impl (local disk time_at) txn p.next_id (advanced p)
  unfolding process_one
  process_one_lem txn p room = rw (fetched p.next_id room) refl

  enqueue_open :
      (txn : Transaction) (q : TransactionQueue)
      → q.closed ≡ false
      → enqueue txn q ≡ (true, record q { items = q.items ++ txn ∷ [] })
  unfolding enqueue
  enqueue_open txn q open_now = ground arith

  -- The state after a transaction has been queued.
  abbrev pub queued : Transaction → Local disk time_at → Local disk time_at
  queued txn p = record p {
    queue = record p.queue { items = p.queue.items ++ txn ∷ [] };
    reserved = p.reserved ++ p.next_id ∷ [];
    next_id = p.next_id + 1;
  }

  pub submit_accepting :
      (txn : Transaction) (p : Local disk time_at)
      → p.accepting ≡ true
      → p.queue.closed ≡ false
      → p.next_id + 1 < 2 ^ 64
      → submit (local disk time_at) txn p ≡ (ok (success p.next_id), queued txn p)
  unfolding submit
  submit_accepting txn p accepting not_closed room =
      ap (λ b. submit_when (local disk time_at) txn b p) accepting
      ∙ rw (enqueue_open txn p.queue not_closed) (rw (fetched p.next_id room) refl)

  pub submit_stopped :
      (txn : Transaction) (p : Local disk time_at)
      → p.accepting ≡ false
      → submit (local disk time_at) txn p ≡ (ok (failure (text "processor stopped")), p)
  unfolding submit
  submit_stopped txn p stopped = ap (λ b. submit_when (local disk time_at) txn b p) stopped

  -- The state after the next transaction and its id have been popped.
  abbrev pub popped :
      List Transaction → List TransactionId → Local disk time_at → Local disk time_at
  popped items reserved p = record p {
    queue = record p.queue { items = items };
    reserved = reserved;
  }

  pub next_empty :
      (p : Local disk time_at)
      → p.queue.items ≡ []
      → process_next (local disk time_at) p ≡ (ok none, p)
  unfolding process_next try_pop
  next_empty p e =
      ap
        (λ items.
          let (popped, q) = pop_items items p.queue in
          process_popped (local disk time_at) popped (record p { queue = q }))
        e

  take_reserved_lem :
      (p : Local disk time_at) (id : TransactionId) (rest : List TransactionId)
      → p.reserved ≡ id ∷ rest
      → take_reserved_id (local disk time_at) p ≡ (ok id, record p { reserved = rest })
  unfolding take_reserved_id
  take_reserved_lem p id rest e = ap (λ l. pop_reserved (local disk time_at) l p) e

  pub next_taken :
      (p : Local disk time_at) (txn : Transaction) (items : List Transaction) (id : TransactionId)
      (reserved : List TransactionId) (r : Result TransactionRecord)
      → p.queue.items ≡ txn ∷ items
      → p.reserved ≡ id ∷ reserved
      → (process_impl (local disk time_at) txn id (popped items reserved p)).0 ≡ ok r
      → process_next (local disk time_at) p
        ≡ (ok (some r), (process_impl (local disk time_at) txn id (popped items reserved p)).1)
  unfolding process_next try_pop
  next_taken p txn items id reserved r e f g =
      ap
        (λ l.
          let (popped, q) = pop_items l p.queue in
          process_popped (local disk time_at) popped (record p { queue = q }))
        e
      ∙ rw (take_reserved_lem (record p { queue = record p.queue { items = items } }) id reserved f)
          (rw g refl)
