-- ===== src/Concurrency/ThreadPool/Invariant.antt =====
-- src/concurrency/ThreadPool.cpp: no task is lost, and none runs twice.
use bank_managment_system.Prelude.{
  ℕ, zero, suc, ◌+◌, ◌≡◌, refl, ap, sym, ◌∙◌, true, ◌≢◌, All-map, List, [], ◌∷◌, ◌++◌, append_assoc,
  All, arith,
}
use bank_managment_system.Prelude.Counts.{count, count-append, is_it}
use bank_managment_system.Concurrency.ThreadPool.{
  Pool, Worker, Caller, System, waiting_workers, make_pool, pop_task, finish_task, has_left,
}

-- How many times a task is in progress.
abbrev pub in_worker : ℕ → Worker → ℕ
in_worker t (Worker.running task) = is_it t task
in_worker t _ = 0

abbrev pub in_workers : ℕ → List Worker → ℕ
in_workers t [] = 0
in_workers t (w ∷ ws) = in_worker t w + in_workers t ws

abbrev pub in_caller : ℕ → Caller → ℕ
in_caller t (Caller.draining_task task) = is_it t task
in_caller t _ = 0

-- Tasks are taken in the order in which they were submitted, and each one that was taken is over or
-- in progress.
pub record Accounted (s : System) : Type 0 where
  pub in_order : s.pool.accepted ≡ s.pool.started ++ s.pool.tasks
  pub counted :
      (t : ℕ)
      → count t s.pool.started
        ≡ count t s.pool.finished + in_workers t s.workers + in_caller t s.caller

-- The queue is closed, and nothing is left in it.
abbrev pub IsDry : Pool → Type 0
IsDry p = (p.stopping ≡ true) × (p.tasks ≡ [])

-- A worker leaves only then.
abbrev pub LeftDry : Pool → List Worker → Type 0
LeftDry p ws = All (λ (w : Worker). has_left w ≡ true → IsDry p) ws

abbrev pub CallerOk : Pool → List Worker → Caller → Type 0
CallerOk p ws Caller.outside = Unit
CallerOk p ws Caller.joining = p.stopping ≡ true
CallerOk p ws Caller.draining = (p.stopping ≡ true) × (ws ≡ [])
CallerOk p ws (Caller.draining_task _) = (p.stopping ≡ true) × (ws ≡ [])
CallerOk p ws Caller.stopped = IsDry p × (ws ≡ [])

pub record Inv (s : System) : Type 0 where
  pub accounted : Accounted s
  pub left_dry : LeftDry s.pool s.workers
  pub caller_ok : CallerOk s.pool s.workers s.caller

in_workers-append :
    (t : ℕ) (xs ys : List Worker) → in_workers t (xs ++ ys) ≡ in_workers t xs + in_workers t ys
in_workers-append t [] ys = omega arith
in_workers-append t (w ∷ xs) ys = omega (arith, in_workers-append t xs ys)

waiting-idle : (t n : ℕ) → in_workers t (waiting_workers n) ≡ 0
waiting-idle t zero = refl
waiting-idle t (suc n) = omega (arith, waiting-idle t n)

waiting-LeftDry : (p : Pool) (n : ℕ) → LeftDry p (waiting_workers n)
waiting-LeftDry p zero = tt
waiting-LeftDry p (suc n) = ((λ h. cc), waiting-LeftDry p n)

pub make_pool-Inv : (n : ℕ) → Inv (make_pool n)
unfolding make_pool
make_pool-Inv n = record {
  accounted = record { in_order = refl; counted = λ t. omega (arith, waiting-idle t n) };
  left_dry = waiting-LeftDry (make_pool n).pool n;
  caller_ok = tt;
}

-- One worker is replaced, and the pool with it.
pub LeftDry-replace :
    (p p' : Pool) (before after : List Worker) (w w' : Worker)
    → (IsDry p → IsDry p')
    → (has_left w' ≡ true → IsDry p')
    → LeftDry p (before ++ w ∷ after)
    → LeftDry p' (before ++ w' ∷ after)
LeftDry-replace p p' [] after w w' keep new h =
    (new, All-map (λ (v : Worker). has_left v ≡ true → IsDry p) _ after (λ v k l. keep (k l)) h.1)
LeftDry-replace p p' (v ∷ before) after w w' keep new h =
    ((λ l. keep (h.0 l)), LeftDry-replace p p' before after w w' keep new h.1)

not_empty : (before after : List Worker) (w : Worker) → (before ++ w ∷ after) ≢ []
not_empty [] after w = λ e. cc
not_empty (v ∷ before) after w = λ e. cc

-- While a worker is left, the caller is not past the joins.
CallerOk-replace :
    (p p' : Pool) (before after : List Worker) (w w' : Worker) (c : Caller)
    → p.stopping ≡ p'.stopping
    → CallerOk p (before ++ w ∷ after) c
    → CallerOk p' (before ++ w' ∷ after) c
CallerOk-replace p p' before after w w' Caller.outside e h = tt
CallerOk-replace p p' before after w w' Caller.joining e h = sym e ∙ h
CallerOk-replace p p' before after w w' Caller.draining e h = absurd (not_empty before after w h.1)
CallerOk-replace p p' before after w w' (Caller.draining_task t) e h =
    absurd (not_empty before after w h.1)
CallerOk-replace p p' before after w w' Caller.stopped e h = absurd (not_empty before after w h.1)

pub popped-order :
    (accepted started tasks rest : List ℕ) (task : ℕ)
    → accepted ≡ started ++ tasks
    → tasks ≡ task ∷ rest
    → accepted ≡ (started ++ task ∷ []) ++ rest
popped-order accepted started tasks rest task h e =
    h ∙ ap (λ l. started ++ l) e ∙ sym (append_assoc started (task ∷ []) rest)

module _ (p : Pool) (before after : List Worker) (c : Caller) where
  abbrev pub with_worker : Pool → Worker → System
  with_worker p' w = record { pool = p'; workers = before ++ w ∷ after; caller = c }

  pub leaves-Inv : IsDry p → Inv (with_worker p Worker.waiting) → Inv (with_worker p Worker.left)
  leaves-Inv dry h = record {
    accounted = record {
      in_order = h.accounted.in_order;
      counted = λ t. omega (
        arith,
        h.accounted.counted t,
        in_workers-append t before (Worker.waiting ∷ after),
        in_workers-append t before (Worker.left ∷ after),
      );
    };
    left_dry =
        LeftDry-replace p p before after Worker.waiting Worker.left (λ d. d) (λ _. dry) h.left_dry;
    caller_ok = CallerOk-replace p p before after Worker.waiting Worker.left c refl h.caller_ok;
  }

  pub takes-Inv :
      (task : ℕ) (rest : List ℕ)
      → p.tasks ≡ task ∷ rest
      → Inv (with_worker p Worker.waiting)
      → Inv (with_worker (pop_task task rest p) (Worker.running task))
  takes-Inv task rest e h = record {
    accounted = record {
      in_order = popped-order p.accepted p.started p.tasks rest task h.accounted.in_order e;
      counted = λ t. omega (
        arith,
        h.accounted.counted t,
        count-append t p.started (task ∷ []),
        in_workers-append t before (Worker.waiting ∷ after),
        in_workers-append t before (Worker.running task ∷ after),
      );
    };
    left_dry =
        LeftDry-replace p (pop_task task rest p) before after Worker.waiting (Worker.running task)
          (λ d. cc (d.1, e)) (λ l. cc) h.left_dry;
    caller_ok =
        CallerOk-replace p (pop_task task rest p) before after Worker.waiting (Worker.running task)
          c refl h.caller_ok;
  }

  pub finishes-Inv :
      (task : ℕ)
      → Inv (with_worker p (Worker.running task))
      → Inv (with_worker (finish_task task p) Worker.waiting)
  finishes-Inv task h = record {
    accounted = record {
      in_order = h.accounted.in_order;
      counted = λ t. omega (
        arith,
        h.accounted.counted t,
        count-append t p.finished (task ∷ []),
        in_workers-append t before (Worker.waiting ∷ after),
        in_workers-append t before (Worker.running task ∷ after),
      );
    };
    left_dry =
        LeftDry-replace p (finish_task task p) before after (Worker.running task) Worker.waiting
          (λ d. d) (λ l. cc) h.left_dry;
    caller_ok =
        CallerOk-replace p (finish_task task p) before after (Worker.running task) Worker.waiting c
          refl h.caller_ok;
  }
