-- ===== src/Concurrency/Processor/Consumer.antt =====
-- src/concurrency/TransactionProcessor.cpp, over any repositories: a consumer whose token is stopped
-- against process_until_empty.
use bank_managment_system.Prelude.{ℕ, zero, suc, ◌≡◌, refl, ◌∙◌, Option, none, some, List, [], ◌∷◌}
use bank_managment_system.Prelude.Exec.{Throws, ok, throw, pure, continue, ◌>>=◌}
use bank_managment_system.Core.{Result}
use bank_managment_system.Domain.Types.{TransactionId}
use bank_managment_system.Domain.Transaction.{Transaction, TransactionRecord}
use bank_managment_system.Concurrency.Queue.{wait_pop, try_pop, size}
use bank_managment_system.Concurrency.Processor.{
  Services, Processor, Action, take_reserved_id, process_impl, process_popped, process_next,
  process_rounds, process_until_empty,
}
use bank_managment_system.Concurrency.Processor.Construct.{consumer_rounds, consumer_loop}

module _ (s : Services) where
  -- A call whose results are dropped.
  abbrev pub dropping : {A : Type 0} → Throws A × Processor s → Throws (Unit {0}) × Processor s
  dropping (r, p) = continue (λ _. pure tt) r p

  abbrev Records : Type 0
  Records = List (Result TransactionRecord)

  -- What process_rounds does with one result.
  abbrev more_rounds : ℕ → Option (Result TransactionRecord) → Action s Records
  more_rounds rounds result = elim result [
    | none ↦ pure []
    | some r ↦ do later ← process_rounds s rounds; pure (r ∷ later)
  ]

  module _ (rounds : ℕ)
      (same : (p : Processor s)
        → consumer_rounds s rounds p ≡ dropping (process_rounds s rounds p)) where
    later_dropped :
        (r : Result TransactionRecord) (out : Throws Records × Processor s)
        → dropping out ≡ dropping (continue (λ later. pure (r ∷ later)) out.0 out.1)
    later_dropped r (ok later, p) = refl
    later_dropped r (throw ex, p) = refl

    after_impl :
        (out : Throws (Result TransactionRecord) × Processor s)
        → continue (λ _. consumer_rounds s rounds) out.0 out.1
          ≡ dropping (
              let (r, p) = continue (λ result. pure (some result)) out.0 out.1 in
              continue (more_rounds rounds) r p)
    after_impl (ok r, p) = same p ∙ later_dropped r (process_rounds s rounds p)
    after_impl (throw ex, p) = refl

    after_id :
        (txn : Transaction) (out : Throws TransactionId × Processor s)
        → continue (λ id. do result ← process_impl s txn id; consumer_rounds s rounds) out.0 out.1
          ≡ dropping (
              let (r, p) =
                continue
                  (λ id. do result ← process_impl s txn id; pure (some result))
                  out.0
                  out.1 in
              continue (more_rounds rounds) r p)
    after_id txn (ok id, p) = after_impl (process_impl s txn id p)
    after_id txn (throw ex, p) = refl

    after_pop :
        (popped : Option Transaction) (p : Processor s)
        → elim popped as (λ _. Action s (Unit {0})) [
          | none ↦ pure tt
          | some txn ↦ do
            id ← take_reserved_id s
            result ← process_impl s txn id
            consumer_rounds s rounds
        ]
            p
          ≡ dropping (let (r, p') = process_popped s popped p in continue (more_rounds rounds) r p')
    after_pop none p = refl
    after_pop (some txn) p = after_id txn (take_reserved_id s p)

  rounds_same :
      (rounds : ℕ) (p : Processor s)
      → consumer_rounds s rounds p ≡ dropping (process_rounds s rounds p)
  unfolding consumer_rounds process_rounds process_next wait_pop
  rounds_same zero p = refl
  rounds_same (suc rounds) p =
      let (popped, q) = try_pop p.queue in
      after_pop rounds (rounds_same rounds) popped (record p { queue = q })

  -- A consumer whose token is stopped leaves, over whatever repositories, the state that
  -- process_until_empty leaves, and throws what it throws.
  pub consumer_loop-process_until_empty :
      (p : Processor s) → consumer_loop s p ≡ dropping (process_until_empty s p)
  unfolding consumer_loop process_until_empty
  consumer_loop-process_until_empty p = rounds_same (suc (size p.queue)) p
