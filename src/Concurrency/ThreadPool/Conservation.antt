-- ===== src/Concurrency/ThreadPool/Conservation.antt =====
-- src/concurrency/ThreadPool.cpp: every step keeps the invariant, so that stop() returns with every
-- accepted task done once.
use bank_managment_system.Prelude.{
  ℕ, ◌≡◌, refl, ap, sym, subst, ◌∙◌, Bool, true, false, if-both, Option, none, some, All-map, List,
  [], ◌∷◌, ◌++◌, append-nil, append_assoc, arith, length,
}
use bank_managment_system.Prelude.Counts.{count, count-append}
use bank_managment_system.Concurrency.ThreadPool.{
  pending, push_task, Pool, Worker, Caller, System, submit, pop_task, finish_task, wake,
  worker_turn, has_left, all_left, begin_stop, drain, caller_turn, stop_turn, is_free, Turn,
  worker_turns, stop_turns, Step, turns, submits, begins_stop, Reachable, created, stepped,
}
use bank_managment_system.Concurrency.ThreadPool.Invariant.{
  in_workers, in_caller, IsDry, LeftDry, CallerOk, Inv, make_pool-Inv, with_worker, leaves-Inv,
  takes-Inv, finishes-Inv, popped-order,
}

-- A result, if there is one, has the property.
abbrev pub Yields {ℓ} : {A : Type 0} → (A → Type ℓ) → Option A → Type ℓ
Yields P none = Unit
Yields P (some a) = P a

pub yielded {ℓ} :
    {A : Type 0} (P : A → Type ℓ) (o : Option A) (a : A) → Yields P o → o ≡ some a → P a
yielded P o a h e = subst (Yields P) e h

module _ (p : Pool) (before after : List Worker) (c : Caller) where
  abbrev InvTurn : Worker × Pool → Type 0
  InvTurn r = Inv (with_worker p before after c r.1 r.0)

  wake-Inv :
      (tasks : List ℕ)
      → p.tasks ≡ tasks
      → InvTurn (Worker.waiting, p)
      → Yields InvTurn (wake p tasks)
  wake-Inv [] e inv =
      if-both (Yields InvTurn) p.stopping (some (Worker.left, p)) none
        (λ stopping. leaves-Inv p before after c (stopping, e) inv) (λ _. tt)
  wake-Inv (task ∷ rest) e inv = takes-Inv p before after c task rest e inv

  turn-Inv : (w : Worker) → InvTurn (w, p) → Yields InvTurn (worker_turn p w)
  unfolding worker_turn
  turn-Inv Worker.waiting inv = wake-Inv p.tasks refl inv
  turn-Inv (Worker.running task) inv = finishes-Inv p before after c task inv
  turn-Inv Worker.left inv = tt

all_left-idle : (t : ℕ) (ws : List Worker) → all_left ws ≡ true → in_workers t ws ≡ 0
all_left-idle t [] h = refl
all_left-idle t (Worker.waiting ∷ ws) h = cc
all_left-idle t (Worker.running task ∷ ws) h = cc
all_left-idle t (Worker.left ∷ ws) h = omega (arith, all_left-idle t ws h)

no_workers-LeftDry : (p : Pool) (ws : List Worker) → ws ≡ [] → LeftDry p ws
no_workers-LeftDry p ws e = subst (LeftDry p) (sym e) tt

-- A pool that takes tasks is not being stopped.
CallerOk-accepts :
    (p p' : Pool) (ws : List Worker) (c : Caller)
    → p.stopping ≡ false
    → p'.stopping ≡ p.stopping
    → CallerOk p ws c
    → CallerOk p' ws c
CallerOk-accepts p p' ws Caller.outside open_yet e h = tt
CallerOk-accepts p p' ws Caller.joining open_yet e h = e ∙ h
CallerOk-accepts p p' ws Caller.draining open_yet e h = (e ∙ h.0, h.1)
CallerOk-accepts p p' ws (Caller.draining_task task) open_yet e h = (e ∙ h.0, h.1)
CallerOk-accepts p p' ws Caller.stopped open_yet e h = cc (open_yet, h.0.0)

free_idle_of : (t : ℕ) (c : Caller) → is_free c ≡ true → in_caller t c ≡ 0
free_idle_of t Caller.outside h = refl
free_idle_of t Caller.stopped h = refl
free_idle_of t Caller.joining h = cc
free_idle_of t Caller.draining h = cc
free_idle_of t (Caller.draining_task task) h = cc

module _ (s : System) (inv : Inv s) where
  in_progress : (c : Caller) → s.caller ≡ c → (t : ℕ) → in_caller t s.caller ≡ in_caller t c
  in_progress c here t = ap (in_caller t) here

  caller-Ok : (c : Caller) → s.caller ≡ c → CallerOk s.pool s.workers c
  caller-Ok c here = subst (CallerOk s.pool s.workers) here inv.caller_ok

  drain-Inv :
      (tasks : List ℕ) → s.pool.tasks ≡ tasks → s.caller ≡ Caller.draining → Inv (drain s tasks)
  drain-Inv [] e here = record {
    accounted = record {
      in_order = inv.accounted.in_order;
      counted = λ t. omega (arith, inv.accounted.counted t, in_progress Caller.draining here t);
    };
    left_dry = inv.left_dry;
    caller_ok = let closed = caller-Ok Caller.draining here in ((closed.0, e), closed.1);
  }
  drain-Inv (task ∷ rest) e here =
      let closed = caller-Ok Caller.draining here in
      record {
        accounted = record {
          in_order =
              popped-order s.pool.accepted s.pool.started s.pool.tasks rest task
                inv.accounted.in_order e;
          counted = λ t. omega (
            arith,
            inv.accounted.counted t,
            in_progress Caller.draining here t,
            count-append t s.pool.started (task ∷ []),
          );
        };
        left_dry = no_workers-LeftDry (pop_task task rest s.pool) s.workers closed.1;
        caller_ok = closed;
      }

  caller_turn-Inv : (c : Caller) → s.caller ≡ c → Yields Inv (caller_turn s c)
  caller_turn-Inv Caller.outside here = tt
  caller_turn-Inv Caller.joining here =
      if-both (Yields Inv) (all_left s.workers)
        (some (record s { workers = []; caller = Caller.draining })) none
        (λ gone. record {
          accounted = record {
            in_order = inv.accounted.in_order;
            counted = λ t. omega (
              arith,
              inv.accounted.counted t,
              in_progress Caller.joining here t,
              all_left-idle t s.workers gone,
            );
          };
          left_dry = tt;
          caller_ok = (caller-Ok Caller.joining here, refl);
        })
        (λ _. tt)
  caller_turn-Inv Caller.draining here = drain-Inv s.pool.tasks refl here
  caller_turn-Inv (Caller.draining_task task) here =
      let closed = caller-Ok (Caller.draining_task task) here in
      record {
        accounted = record {
          in_order = inv.accounted.in_order;
          counted = λ t. omega (
            arith,
            inv.accounted.counted t,
            in_progress (Caller.draining_task task) here t,
            count-append t s.pool.finished (task ∷ []),
          );
        };
        left_dry = no_workers-LeftDry (finish_task task s.pool) s.workers closed.1;
        caller_ok = closed;
      }
  caller_turn-Inv Caller.stopped here = tt

  free-idle : (t : ℕ) → is_free s.caller ≡ true → in_caller t s.caller ≡ 0
  free-idle t free = free_idle_of t s.caller free

  begin_stop-Inv : is_free s.caller ≡ true → Inv (begin_stop s)
  unfolding begin_stop
  begin_stop-Inv free = record {
    accounted = record {
      in_order = inv.accounted.in_order;
      counted = λ t. omega (arith, inv.accounted.counted t, free-idle t free);
    };
    left_dry =
        All-map (λ (w : Worker). has_left w ≡ true → IsDry s.pool) _ s.workers
          (λ w h l. (refl, (h l).1)) inv.left_dry;
    caller_ok = refl;
  }

  submit-Inv : (task : ℕ) → Inv (record s { pool = (submit task s.pool).1 })
  unfolding submit
  submit-Inv task =
      if-both (λ (r : Bool × Pool). Inv (record s { pool = r.1 })) s.pool.stopping (false, s.pool) _
        (λ _. inv)
        (λ open_yet. record {
          accounted = record {
            in_order =
                ap (λ l. l ++ task ∷ []) inv.accounted.in_order
                ∙ append_assoc s.pool.started s.pool.tasks (task ∷ []);
            counted = inv.accounted.counted;
          };
          left_dry =
              All-map (λ (w : Worker). has_left w ≡ true → IsDry s.pool) _ s.workers
                (λ w h l. cc ((h l).0, open_yet)) inv.left_dry;
          caller_ok =
              CallerOk-accepts s.pool (push_task task s.pool) s.workers s.caller open_yet refl
                inv.caller_ok;
        })

pub Turn-Inv : (s s' : System) → Turn s s' → Inv s → Inv s'
unfolding stop_turn
Turn-Inv s _ (worker_turns _ before after w w' p e h) inv =
    let placed = subst (λ ws. Inv (record s { workers = ws })) e inv in
    yielded (InvTurn s.pool before after s.caller) (worker_turn s.pool w) (w', p)
      (turn-Inv s.pool before after s.caller w placed) h
Turn-Inv s s' (stop_turns _ _ h) inv =
    yielded Inv (stop_turn s) s' (caller_turn-Inv s inv s.caller refl) h

Step-Inv : (s s' : System) → Step s s' → Inv s → Inv s'
Step-Inv s s' (turns _ _ turn) inv = Turn-Inv s s' turn inv
Step-Inv s _ (submits _ task) inv = submit-Inv s inv task
Step-Inv s _ (begins_stop _ free) inv = begin_stop-Inv s inv free

pub Reachable-Inv : (n : ℕ) (s : System) → Reachable n s → Inv s
Reachable-Inv n _ created = make_pool-Inv n
Reachable-Inv n s' (stepped s _ before step) = Step-Inv s s' step (Reachable-Inv n s before)

-- Once stop() has returned, in a pool of any number of workers and after any interleaving of its
-- steps with calls of submit: no worker and no task is left, the tasks that submit accepted were
-- started in the order in which it accepted them, each of them is over as often as it was accepted,
-- and submit refuses a task and changes nothing.
pub stopped-Conserves :
    (n : ℕ) (s : System) (task : ℕ)
    → Reachable n s
    → s.caller ≡ Caller.stopped
    → (s.workers ≡ [])
      × (pending s.pool ≡ 0)
      × (s.pool.started ≡ s.pool.accepted)
      × (count task s.pool.finished ≡ count task s.pool.accepted)
      × (submit task s.pool ≡ (false, s.pool))
unfolding submit
stopped-Conserves n s task reached here =
    let inv = Reachable-Inv n s reached in
    let (dry, gone) = subst (CallerOk s.pool s.workers) here inv.caller_ok in
    let empty : s.pool.accepted ≡ s.pool.started =
      inv.accounted.in_order ∙ ap (λ l. s.pool.started ++ l) dry.1 ∙ append-nil s.pool.started in
    (
      gone,
      ap (length {A = ℕ}) dry.1,
      sym empty,
      omega (
        arith,
        inv.accounted.counted task,
        ap (in_workers task) gone,
        ap (in_caller task) here,
        ap (count task) empty,
      ),
      if-both (λ (r : Bool × Pool). r ≡ (false, s.pool)) s.pool.stopping (false, s.pool) _
          (λ _. refl) (λ open_yet. cc (open_yet, dry.0)),
    )
