-- ===== src/Concurrency/ThreadPool.antt =====
-- src/concurrency/ThreadPool.h and ThreadPool.cpp: the pool's queue, its workers and stop(), in the
-- order in which they hold the mutex. A task is a number that stands for a call.
pub mod Conservation
pub mod Invariant
pub mod Stopping
use bank_managment_system.Prelude.{
  ℕ, zero, suc, ◌≡◌, ◌&&◌, Bool, true, false, not, if◌then◌else◌, Option, none, some, List, [], ◌∷◌,
  ◌++◌, length,
}

-- What the mutex guards. `accepted`, `started` and `finished` are the tasks so far that submit has
-- taken, that were popped, and whose calls are over.
pub record Pool : Type 0 where
  pub tasks : List ℕ
  pub stopping : Bool
  pub accepted : List ℕ
  pub started : List ℕ
  pub finished : List ℕ

-- Where a worker stands in its loop.
pub data Worker : Type 0 where
  waiting : Worker
  running : ℕ → Worker
  left : Worker

-- Where the thread stands that calls stop().
pub data Caller : Type 0 where
  outside : Caller
  joining : Caller
  draining : Caller
  draining_task : ℕ → Caller
  stopped : Caller

pub record System : Type 0 where
  pub pool : Pool
  pub workers : List Worker
  pub caller : Caller

abbrev pub waiting_workers : ℕ → List Worker
waiting_workers zero = []
waiting_workers (suc n) = Worker.waiting ∷ waiting_workers n

-- The constructor.
unfoldable pub make_pool : ℕ → System
make_pool thread_count = record {
  pool = record { tasks = []; stopping = false; accepted = []; started = []; finished = [] };
  workers = waiting_workers thread_count;
  caller = Caller.outside;
}

-- tasks_.push
abbrev pub push_task : ℕ → Pool → Pool
push_task task p = record p { tasks = p.tasks ++ task ∷ []; accepted = p.accepted ++ task ∷ [] }

unfoldable pub submit : ℕ → Pool → Bool × Pool
submit task p = if p.stopping then (false, p) else (true, push_task task p)

abbrev pub pending : Pool → ℕ
pending p = length p.tasks

-- tasks_.front() and tasks_.pop(), on a queue of a first task and others.
abbrev pub pop_task : ℕ → List ℕ → Pool → Pool
pop_task task rest p = record p { tasks = rest; started = p.started ++ task ∷ [] }

abbrev pub finish_task : ℕ → Pool → Pool
finish_task task p = record p { finished = p.finished ++ task ∷ [] }

-- What a waiting worker does once it holds the mutex: `none` if the wait goes on.
abbrev pub wake : Pool → List ℕ → Option (Worker × Pool)
wake p [] = if p.stopping then some (Worker.left, p) else none
wake p (task ∷ rest) = some (Worker.running task, pop_task task rest p)

-- A turn of a worker: `none` if it waits or has left.
unfoldable pub worker_turn : Pool → Worker → Option (Worker × Pool)
worker_turn p Worker.waiting = wake p p.tasks
worker_turn p (Worker.running task) = some (Worker.waiting, finish_task task p)
worker_turn p Worker.left = none

abbrev pub has_left : Worker → Bool
has_left Worker.left = true
has_left _ = false

abbrev pub all_left : List Worker → Bool
all_left [] = true
all_left (w ∷ ws) = has_left w && all_left ws

-- stop() up to the joins.
unfoldable pub begin_stop : System → System
begin_stop s = record s { pool = record s.pool { stopping = true }; caller = Caller.joining }

abbrev pub drain : System → List ℕ → System
drain s [] = record s { caller = Caller.stopped }
drain s (task ∷ rest) = record s {
  pool = pop_task task rest s.pool;
  caller = Caller.draining_task task;
}

-- A turn of stop() after that: the joins, which take until every worker has left, and the loop
-- that drains the queue. `none` if it waits or has returned.
abbrev pub caller_turn : System → Caller → Option System
caller_turn s Caller.joining =
    if all_left s.workers then some (record s { workers = []; caller = Caller.draining }) else none
caller_turn s Caller.draining = some (drain s s.pool.tasks)
caller_turn s (Caller.draining_task task) =
    some (record s { pool = finish_task task s.pool; caller = Caller.draining })
caller_turn s _ = none

unfoldable pub stop_turn : System → Option System
stop_turn s = caller_turn s s.caller

-- The caller is not inside stop().
abbrev pub is_free : Caller → Bool
is_free Caller.outside = true
is_free Caller.stopped = true
is_free _ = false

-- Turns of the workers and of a call of stop.
pub data Turn : System → System → Type 0 where
  worker_turns :
      (s : System) (before after : List Worker) (w w' : Worker) (p : Pool)
      → s.workers ≡ before ++ w ∷ after
      → worker_turn s.pool w ≡ some (w', p)
      → Turn s (record s { pool = p; workers = before ++ w' ∷ after })
  stop_turns : (s s' : System) → stop_turn s ≡ some s' → Turn s s'

-- A turn, or a call from outside.
pub data Step : System → System → Type 0 where
  turns : (s s' : System) → Turn s s' → Step s s'
  submits : (s : System) (task : ℕ) → Step s (record s { pool = (submit task s.pool).1 })
  begins_stop : (s : System) → is_free s.caller ≡ true → Step s (begin_stop s)

pub data Reachable (thread_count : ℕ) : System → Type 0 where
  created : Reachable thread_count (make_pool thread_count)
  stepped : (s s' : System) → Reachable thread_count s → Step s s' → Reachable thread_count s'
