-- ===== src/Concurrency/ThreadPool/Stopping.antt =====
-- src/concurrency/ThreadPool.cpp: stop() returns, whatever the order of the turns.
use bank_managment_system.Prelude.{
  ℕ, suc, ◌+◌, ◌*◌, ◌<◌, ◌≤◌, ◌⊎◌, ◌≡◌, refl, ap, ◌∙◌, true, false, if-both, Bool-cases, inl, inr,
  none, some, List, [], ◌∷◌, ◌++◌, arith, length,
}
use bank_managment_system.Concurrency.ThreadPool.{
  Pool, Worker, Caller, System, pop_task, finish_task, wake, worker_turn, has_left, all_left, drain,
  caller_turn, stop_turn, is_free, Turn, worker_turns, stop_turns, Reachable,
}
use bank_managment_system.Concurrency.ThreadPool.Invariant.{CallerOk, Inv}
use bank_managment_system.Concurrency.ThreadPool.Conservation.{
  Yields, yielded, Turn-Inv, Reachable-Inv,
}

-- The turns that are left at most: a task costs two, to take it and to finish it.
abbrev pub worker_work : Worker → ℕ
worker_work Worker.waiting = 1
worker_work (Worker.running _) = 2
worker_work Worker.left = 0

abbrev pub workers_work : List Worker → ℕ
workers_work [] = 0
workers_work (w ∷ ws) = worker_work w + workers_work ws

abbrev pub caller_work : Caller → ℕ
caller_work Caller.outside = 0
caller_work Caller.joining = 2
caller_work Caller.draining = 1
caller_work (Caller.draining_task _) = 2
caller_work Caller.stopped = 0

abbrev pub work : System → ℕ
work s = 2 * length s.pool.tasks + workers_work s.workers + caller_work s.caller

workers_work-append :
    (xs ys : List Worker) → workers_work (xs ++ ys) ≡ workers_work xs + workers_work ys
workers_work-append [] ys = omega arith
workers_work-append (w ∷ xs) ys = omega (arith, workers_work-append xs ys)

-- What a worker's turn leaves to do.
abbrev LessWork : Pool → Worker → Worker × Pool → Type 0
LessWork p w r = 2 * length r.1.tasks + worker_work r.0 < 2 * length p.tasks + worker_work w

wake-work :
    (p : Pool) (tasks : List ℕ)
    → p.tasks ≡ tasks
    → Yields (LessWork p Worker.waiting) (wake p tasks)
wake-work p [] e =
    if-both (Yields (LessWork p Worker.waiting)) p.stopping (some (Worker.left, p)) none
      (λ _. omega arith) (λ _. tt)
wake-work p (task ∷ rest) e = omega (arith, ap (length {A = ℕ}) e)

turn-work : (p : Pool) (w : Worker) → Yields (LessWork p w) (worker_turn p w)
unfolding worker_turn
turn-work p Worker.waiting = wake-work p p.tasks refl
turn-work p (Worker.running task) = omega arith
turn-work p Worker.left = tt

drain-work :
    (s : System) (tasks : List ℕ)
    → s.pool.tasks ≡ tasks
    → s.caller ≡ Caller.draining
    → work (drain s tasks) < work s
drain-work s [] e here = omega (arith, ap caller_work here)
drain-work s (task ∷ rest) e here = omega (arith, ap (length {A = ℕ}) e, ap caller_work here)

caller_turn-work :
    (s : System) (c : Caller) → s.caller ≡ c → Yields (λ s'. work s' < work s) (caller_turn s c)
caller_turn-work s Caller.outside here = tt
caller_turn-work s Caller.joining here =
    if-both (Yields (λ s'. work s' < work s)) (all_left s.workers)
      (some (record s { workers = []; caller = Caller.draining })) none
      (λ _. omega (arith, ap caller_work here)) (λ _. tt)
caller_turn-work s Caller.draining here = drain-work s s.pool.tasks refl here
caller_turn-work s (Caller.draining_task task) here = omega (arith, ap caller_work here)
caller_turn-work s Caller.stopped here = tt

Turn-work : (s s' : System) → Turn s s' → work s' < work s
unfolding stop_turn
Turn-work s _ (worker_turns _ before after w w' p e h) =
    let less = yielded (LessWork s.pool w) (worker_turn s.pool w) (w', p) (turn-work s.pool w) h in
    omega (
      arith,
      less,
      ap workers_work e,
      workers_work-append before (w ∷ after),
      workers_work-append before (w' ∷ after),
    )
Turn-work s s' (stop_turns _ _ h) =
    yielded (λ s'. work s' < work s) (stop_turn s) s' (caller_turn-work s s.caller refl) h

-- Inside stop(), or back from it.
abbrev pub HasBegun : Caller → Type 0
HasBegun c = (c ≡ Caller.stopped) ⊎ (is_free c ≡ false)

drain-HasBegun : (s : System) (tasks : List ℕ) → HasBegun (drain s tasks).caller
drain-HasBegun s [] = inl refl
drain-HasBegun s (task ∷ rest) = inr refl

caller_turn-HasBegun :
    (s : System) (c : Caller) → Yields (λ (s' : System). HasBegun s'.caller) (caller_turn s c)
caller_turn-HasBegun s Caller.outside = tt
caller_turn-HasBegun s Caller.joining =
    if-both (Yields (λ (s' : System). HasBegun s'.caller)) (all_left s.workers)
      (some (record s { workers = []; caller = Caller.draining })) none (λ _. inr refl) (λ _. tt)
caller_turn-HasBegun s Caller.draining = drain-HasBegun s s.pool.tasks
caller_turn-HasBegun s (Caller.draining_task task) = inr refl
caller_turn-HasBegun s Caller.stopped = tt

Turn-HasBegun : (s s' : System) → Turn s s' → HasBegun s.caller → HasBegun s'.caller
unfolding stop_turn
Turn-HasBegun s _ (worker_turns _ before after w w' p e h) begun = begun
Turn-HasBegun s s' (stop_turns _ _ h) begun =
    yielded (λ (s' : System). HasBegun s'.caller) (stop_turn s) s' (caller_turn-HasBegun s s.caller)
      h

-- A worker that has not left.
abbrev Present : List Worker → Type 0
Present ws =
    (before : List Worker) × (after : List Worker) × (w : Worker) × (ws ≡ before ++ w ∷ after)
    × (has_left w ≡ false)

find-Present : (ws : List Worker) → all_left ws ≡ false → Present ws
find-Present [] h = cc
find-Present (Worker.left ∷ ws) h =
    let (before, after, w, e, here) = find-Present ws h in
    (Worker.left ∷ before, after, w, ap (λ l. Worker.left ∷ l) e, here)
find-Present (Worker.waiting ∷ ws) h = ([], ws, Worker.waiting, refl, refl)
find-Present (Worker.running task ∷ ws) h = ([], ws, Worker.running task, refl, refl)

wakes :
    (p : Pool) (tasks : List ℕ) → p.stopping ≡ true → (r : Worker × Pool) × (wake p tasks ≡ some r)
wakes p [] stopping = ((Worker.left, p), rw stopping refl)
wakes p (task ∷ rest) stopping = ((Worker.running task, pop_task task rest p), refl)

worker_can :
    (p : Pool) (w : Worker)
    → p.stopping ≡ true
    → has_left w ≡ false
    → (r : Worker × Pool) × (worker_turn p w ≡ some r)
unfolding worker_turn
worker_can p Worker.waiting stopping here = wakes p p.tasks stopping
worker_can p (Worker.running task) stopping here = ((Worker.waiting, finish_task task p), refl)
worker_can p Worker.left stopping here = cc

abbrev pub CanTurn : System → Type 0
CanTurn s = (s' : System) × Turn s s'

-- The joins wait for a worker that can take a turn.
joining-CanTurn : (s : System) → s.pool.stopping ≡ true → s.caller ≡ Caller.joining → CanTurn s
unfolding stop_turn
joining-CanTurn s stopping here = elim (Bool-cases (all_left s.workers)) [
  | inl gone ↦ (
    record s { workers = []; caller = Caller.draining },
    stop_turns s _ (ap (caller_turn s) here ∙ rw gone refl),
  )
  | inr staying ↦
      let (before, after, w, e, present) = find-Present s.workers staying in
      let ((w', p), h) = worker_can s.pool w stopping present in
      (
        record s { pool = p; workers = before ++ w' ∷ after },
        worker_turns s before after w w' p e h,
      )
]

caller-CanTurn :
    (s : System) (c : Caller)
    → s.caller ≡ c
    → CallerOk s.pool s.workers c
    → HasBegun c
    → (c ≡ Caller.stopped) ⊎ CanTurn s
unfolding stop_turn
caller-CanTurn s Caller.outside here ok (inl e) = inl e
caller-CanTurn s Caller.outside here ok (inr inside) = cc
caller-CanTurn s Caller.joining here ok begun = inr (joining-CanTurn s ok here)
caller-CanTurn s Caller.draining here ok begun =
    inr (drain s s.pool.tasks, stop_turns s _ (ap (caller_turn s) here))
caller-CanTurn s (Caller.draining_task task) here ok begun = inr (
  record s { pool = finish_task task s.pool; caller = Caller.draining },
  stop_turns s _ (ap (caller_turn s) here),
)
caller-CanTurn s Caller.stopped here ok begun = inl refl

-- A number of turns, one after the other.
pub data Turns (s : System) : ℕ → System → Type 0 where
  no_turn : Turns s 0 s
  one_more : (k : ℕ) (s' s'' : System) → Turns s k s' → Turn s' s'' → Turns s (suc k) s''

Turns-keep :
    (s : System) (k : ℕ) (s' : System)
    → Turns s k s'
    → Inv s
    → HasBegun s.caller
    → Inv s' × HasBegun s'.caller × (k + work s' ≤ work s)
Turns-keep s _ _ no_turn inv begun = (inv, begun, omega arith)
Turns-keep s _ s'' (one_more k s' _ before turn) inv begun =
    let (inv', begun', less) = Turns-keep s k s' before inv begun in
    (
      Turn-Inv s' s'' turn inv',
      Turn-HasBegun s' s'' turn begun',
      omega (arith, less, Turn-work s' s'' turn),
    )

-- From any reachable state in which a thread is inside stop(), the workers and that thread take as
-- many turns as `work` counts at most, in whatever order, and as long as stop() has not returned
-- one of them can take a turn: no call of stop waits forever, if the tasks end.
pub stop-Ends :
    (n : ℕ) (s s' : System) (k : ℕ)
    → Reachable n s
    → is_free s.caller ≡ false
    → Turns s k s'
    → (k ≤ work s) × ((s'.caller ≡ Caller.stopped) ⊎ CanTurn s')
stop-Ends n s s' k reached inside taken =
    let (inv, begun, less) = Turns-keep s k s' taken (Reachable-Inv n s reached) (inr inside) in
    (omega (arith, less), caller-CanTurn s' s'.caller refl inv.caller_ok begun)
