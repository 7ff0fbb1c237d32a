-- ===== src/Concurrency/Queue.antt =====
-- src/concurrency/TransactionQueue.cpp, one call at a time: each call holds the mutex while it runs.
use bank_managment_system.Prelude.{
  ℕ, Bool, true, false, if◌then◌else◌, Option, none, some, List, [], ◌∷◌, ◌++◌, length,
}
use bank_managment_system.Domain.Transaction.{Transaction}

pub record TransactionQueue : Type 0 where
  pub items : List Transaction
  pub closed : Bool

abbrev pub empty_queue : TransactionQueue
empty_queue = record { items = []; closed = false }

unfoldable pub enqueue : Transaction → TransactionQueue → Bool × TransactionQueue
enqueue txn q = if q.closed then (false, q) else (true, record q { items = q.items ++ txn ∷ [] })

abbrev pub pop_items : List Transaction → TransactionQueue → Option Transaction × TransactionQueue
pop_items [] q = (none, q)
pop_items (t ∷ rest) q = (some t, record q { items = rest })

unfoldable pub try_pop : TransactionQueue → Option Transaction × TransactionQueue
try_pop q = pop_items q.items q

-- What wait_pop returns once its wait is over: the queue is closed or not empty, or the token is
-- stopped.
unfoldable pub wait_pop : TransactionQueue → Option Transaction × TransactionQueue
unfolding try_pop
wait_pop q = try_pop q

unfoldable pub close : TransactionQueue → TransactionQueue
close q = record q { closed = true }

unfoldable pub size : TransactionQueue → ℕ
size q = length q.items
