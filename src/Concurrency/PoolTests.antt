-- ===== src/Concurrency/PoolTests.antt =====
-- src/concurrency/ThreadPool.cpp: a pool of one worker that is stopped while a task waits.
use bank_managment_system.Prelude.{◌≤◌, ◌≡◌, refl, ◌⊎◌, false, [], ◌∷◌}
use bank_managment_system.Prelude.Counts.{count}
use bank_managment_system.Concurrency.ThreadPool.{
  System, Worker, Caller, Turn, Step, Reachable, make_pool, submit, pending, begin_stop,
  worker_turn, stop_turn, is_free,
}
use bank_managment_system.Concurrency.ThreadPool.Conservation.{stopped-Conserves}
use bank_managment_system.Concurrency.ThreadPool.Stopping.{Turns, CanTurn, work, stop-Ends}

abbrev submitted : System
submitted = record (make_pool 1) { pool = (submit 7 (make_pool 1).pool).1 }

abbrev stopping : System
stopping = begin_stop submitted

stopping-Reachable : Reachable 1 stopping
unfolding make_pool submit
stopping-Reachable =
    Reachable.stepped submitted stopping
      (Reachable.stepped (make_pool 1) submitted Reachable.created (Step.submits (make_pool 1) 7))
      (Step.begins_stop submitted refl)

-- The worker's three turns, and those of stop.
abbrev worker_is : Worker → System → System
worker_is w s = record s { workers = w ∷ [] }

abbrev running_task : System
running_task = record stopping {
  pool = record stopping.pool { tasks = []; started = 7 ∷ [] };
  workers = Worker.running 7 ∷ [];
}

abbrev task_over : System
task_over = record stopping {
  pool = record stopping.pool { tasks = []; started = 7 ∷ []; finished = 7 ∷ [] };
  workers = Worker.waiting ∷ [];
}

first-Turn : Turn stopping running_task
unfolding begin_stop make_pool submit worker_turn
first-Turn =
    Turn.worker_turns stopping [] [] Worker.waiting (Worker.running 7) running_task.pool refl refl

second-Turn : Turn running_task task_over
unfolding begin_stop make_pool submit worker_turn
second-Turn =
    Turn.worker_turns running_task [] [] (Worker.running 7) Worker.waiting task_over.pool refl refl

abbrev worker_left : System
worker_left = record task_over { workers = Worker.left ∷ [] }

abbrev joined : System
joined = record task_over { workers = []; caller = Caller.draining }

abbrev all_done : System
all_done = record joined { caller = Caller.stopped }

third-Turn : Turn task_over worker_left
unfolding begin_stop make_pool submit worker_turn
third-Turn = Turn.worker_turns task_over [] [] Worker.waiting Worker.left task_over.pool refl refl

fourth-Turn : Turn worker_left joined
unfolding begin_stop make_pool submit stop_turn
fourth-Turn = Turn.stop_turns worker_left joined refl

fifth-Turn : Turn joined all_done
unfolding begin_stop make_pool submit stop_turn
fifth-Turn = Turn.stop_turns joined all_done refl

stepped_by : (s s' : System) → Reachable 1 s → Turn s s' → Reachable 1 s'
stepped_by s s' reached turn = Reachable.stepped s s' reached (Step.turns s s' turn)

all_done-Reachable : Reachable 1 all_done
all_done-Reachable =
    stepped_by joined all_done
      (stepped_by worker_left joined
        (stepped_by task_over worker_left
          (stepped_by running_task task_over
            (stepped_by stopping running_task stopping-Reachable first-Turn) second-Turn)
          third-Turn)
        fourth-Turn)
      fifth-Turn

stopped-Conserves_example :
    (all_done.workers ≡ [])
    × (pending all_done.pool ≡ 0)
    × (all_done.pool.started ≡ all_done.pool.accepted)
    × (count 7 all_done.pool.finished ≡ count 7 all_done.pool.accepted)
    × (submit 7 all_done.pool ≡ (false, all_done.pool))
stopped-Conserves_example = stopped-Conserves 1 all_done 7 all_done-Reachable refl

stopping_inside : is_free stopping.caller ≡ false
unfolding begin_stop
stopping_inside = refl

stop-Ends_example : (2 ≤ work stopping) × ((task_over.caller ≡ Caller.stopped) ⊎ CanTurn task_over)
stop-Ends_example = stop-Ends 1 stopping task_over 2 stopping-Reachable stopping_inside (
    Turns.one_more 1 running_task task_over
      (Turns.one_more 0 stopping running_task Turns.no_turn first-Turn) second-Turn)
