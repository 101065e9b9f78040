-- ===== src/Scheduler/Tests.antt =====
-- Runs of the scheduler, and the theorems at concrete inputs.
use cpp_linux_server_frame.Base.{
  ℕ, ◌≡◌, refl, true, false, List, [], ◌∷◌, Option, none, some, arith,
}
use cpp_linux_server_frame.Fiber.{
  init, hold, term, Fiber, assertion, done, and_then, main_of_thread, new_fiber, reset, entered,
}
use cpp_linux_server_frame.Scheduler.{
  Task, Scheduler, new_scheduler, schedule, schedule_no_lock, start, stop, joins, tickle_times,
  is_stopping,
}
use cpp_linux_server_frame.Scheduler.Queue.{picked, pick}
use cpp_linux_server_frame.Scheduler.Queue.Order.{All, nil, cons, Runnable, Finds, pick-Finds}
use cpp_linux_server_frame.Scheduler.Queue.Turns.{Turn, schedules, picks, taken, In, taken-In}
use cpp_linux_server_frame.Scheduler.Run.{
  took, running, aborted, Worker, Shared, new_worker, fiber_task, at_end, look, begin_task, leave,
  count_down, settle,
}
use cpp_linux_server_frame.Scheduler.System.{
  System, with_scheduler, ask_to_stop, started, Reach, at_start, later, Step, moves, looks, begins,
  leaves, counts_down, settles,
}
use cpp_linux_server_frame.Scheduler.System.Invariant.{IsValid, Each}
use cpp_linux_server_frame.Scheduler.System.Safety.{
  Reach-IsValid, started-IsValid, Quiet, Reach-Quiet,
}
use cpp_linux_server_frame.Scheduler.System.Twice.{both_look, both_begin, scheduled_twice}

abbrev task : ℕ → Option ℕ → Task
task cb thread = record { fiber = none; cb = some cb; thread = thread }

-- Thread 1 passes over a task for thread 2.
abbrev queue : List Task
queue = task 10 (some 2) ∷ task 11 none ∷ task 12 none ∷ []

queue-Runnable : All Runnable queue
queue-Runnable = cons refl (cons refl (cons refl nil))

picks_second :
    pick 1 (λ _. init) queue
    ≡ picked true (some (task 11 none)) (task 10 (some 2) ∷ task 12 none ∷ [])
unfolding pick
picks_second = refl

pick-Finds_example : Finds 1 (λ _. init) queue (pick 1 (λ _. init) queue)
pick-Finds_example = pick-Finds 1 (λ _. init) queue queue-Runnable

-- A scheduler of two threads that start has left.
abbrev scheduler : Scheduler
scheduler = record {
  fibers = [];
  root_fiber = none;
  thread_ids = 1 ∷ 2 ∷ [];
  thread_count = 2;
  active_thread_count = 0;
  idle_thread_count = 0;
  stopping = false;
  auto_stop = false;
  root_thread = none;
  threads = 2;
  tickles = 0;
}

no_threads : new_scheduler 0 true 7 8 false ≡ assertion
unfolding new_scheduler
no_threads = refl

started_scheduler : and_then (new_scheduler 2 false 7 8 false) (start (1 ∷ 2 ∷ [])) ≡ done scheduler
unfolding new_scheduler start
started_scheduler = refl

-- Without tasks, a scheduler that has stopped.
stops_at_once :
    stop false term scheduler
    ≡ done (joins false, record scheduler { auto_stop = true; stopping = true; tickles = 2 })
unfolding stop is_stopping tickle_times
stops_at_once = refl

abbrev busy_scheduler : Scheduler
busy_scheduler = record scheduler { fibers = queue }

-- Two workers take two tasks; the third task in the queue is for all.
abbrev turns : List Turn
turns =
    picks 1 (λ _. init) ∷ schedules (task 13 none) ∷ picks 2 (λ _. init) ∷ picks 1 (λ _. init) ∷ []

taken-In_example : In (task 12 none) (taken turns busy_scheduler)
taken-In_example =
    taken-In (task 12 none) turns 2 busy_scheduler (record { anywhere = refl; no_fiber = refl })
      (record {
        front = task 10 (some 2) ∷ task 11 none ∷ [];
        back = [];
        queue = refl;
        ahead = refl;
        runnable = queue-Runnable;
      })
      (omega arith)

-- One worker runs one task to its end; then stop is called.
abbrev fibers : ℕ → Fiber
fibers a = main_of_thread

abbrev scheduled : Shared
scheduled = record { scheduler = schedule (task 10 none) scheduler; fibers = fibers }

abbrev looked : Shared × Worker
looked = look scheduled (new_worker 1)

abbrev begun : Shared × Worker
begun = begin_task 1024 50 3 (task 10 none) looked.0 looked.1

abbrev left : Shared × Worker
left = leave at_end true 50 begun.0 begun.1

abbrev counted : Shared × Worker
counted = count_down true 50 left.0 left.1

abbrev settled : Shared × Worker
settled = settle true 50 counted.0 counted.1

abbrev at_last : System
at_last = record {
  shared = with_scheduler (ask_to_stop settled.0.scheduler) settled.0;
  workers = settled.1 ∷ [];
}

run_of_one : Reach (started scheduler fibers (1 ∷ [])) at_last
unfolding schedule schedule_no_lock look pick begin_task settle new_fiber reset entered
run_of_one =
    later
      (later
        (later
          (later
            (later
              (later (later at_start (Step.schedules (task 10 none)))
                (moves [] [] (new_worker 1) looked refl (looks refl)))
              (moves [] [] looked.1 begun refl (begins 1024 50 3 (task 10 none) refl)))
            (moves [] [] begun.1 left refl (leaves at_end true 50 refl)))
          (moves [] [] left.1 counted refl (counts_down true 50 refl)))
        (moves [] [] counted.1 settled refl (settles true 50 refl)))
      Step.stops

at_last-IsStopping : is_stopping at_last.shared.scheduler ≡ true
unfolding is_stopping schedule schedule_no_lock look pick begin_task settle new_fiber reset entered
at_last-IsStopping = refl

Reach-IsValid_example : IsValid at_last
Reach-IsValid_example =
    Reach-IsValid (started-IsValid scheduler fibers (1 ∷ []) refl refl nil (omega arith)) run_of_one

Reach-Quiet_example : (at_last.shared.scheduler.fibers ≡ []) × Each Quiet at_last.workers
Reach-Quiet_example =
    Reach-Quiet scheduler fibers (1 ∷ []) at_last refl refl nil (omega arith) run_of_one
      at_last-IsStopping

-- The fiber at 60 is scheduled twice.
abbrev twice : Shared
twice = record {
  scheduler = record scheduler { fibers = fiber_task 60 ∷ fiber_task 60 ∷ [] };
  fibers = λ a. record { id = 4; stack = some 1024; state = hold; cb = some 10; entry = none };
}

scheduled_twice_example :
    let (s', v', w') = both_look twice (new_worker 1) (new_worker 2) in
    let (s'', v'', w'') = both_begin 1024 50 3 (fiber_task 60) s' v' w' in
    (v''.phase ≡ running false 60) × (w''.phase ≡ aborted (took (fiber_task 60)))
scheduled_twice_example =
    scheduled_twice 1024 50 3 60 [] twice (new_worker 1) (new_worker 2) refl refl refl
