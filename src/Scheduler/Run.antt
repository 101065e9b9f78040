-- ===== src/Scheduler/Run.antt =====
-- Scheduler::run, cut where other threads can come between: at the locks, at the atomic counters
-- and at the switches to another fiber. A worker is a thread in run; each section of its loop is a
-- function of the shared state and the worker.
use cpp_linux_server_frame.Base.{ℕ, Bool, true, false, not, Option, none, some, if◌then◌else◌}
use cpp_linux_server_frame.Fiber.{
  State, init, hold, ready, exec, term, is_exec, is_ready, is_over, is_term, Fiber, Checked,
  assertion, null_pointer, done, and_then, new_fiber, reset, entered, finished, update,
}
use cpp_linux_server_frame.Scheduler.{
  Task, Scheduler, increment, decrement, tickle_if, schedule, is_stopping,
}
use cpp_linux_server_frame.Scheduler.Queue.{Picked, picked, pick}

-- Where a worker stands.
pub data Phase : Type 0 where
  -- at the top of the loop
  looking : Phase
  -- behind the lock, with the task in `fat`
  took : Task → Phase
  -- behind the lock, without a task
  without_task : Phase
  -- in swapIn of the fiber; `from_cb` is whether it is cb_fiber
  running : (from_cb : Bool) (fiber : ℕ) → Phase
  -- swapIn has returned
  swapped_out : (from_cb : Bool) (fiber : ℕ) → Phase
  -- m_activeThreadCount has been decremented
  counted_down : (from_cb : Bool) (fiber : ℕ) → Phase
  -- in swapIn of idle_fiber
  idling : Phase
  -- behind `while (true)`
  ended : Phase
  -- an assertion has failed in the phase
  aborted : Phase → Phase

pub record Worker : Type 0 where
  pub thread : ℕ
  pub cb_fiber : Option ℕ
  -- The state of idle_fiber.
  pub idle : State
  pub phase : Phase

pub record Shared : Type 0 where
  pub scheduler : Scheduler
  pub fibers : ℕ → Fiber

abbrev pub new_worker : ℕ → Worker
new_worker thread = record { thread = thread; cb_fiber = none; idle = init; phase = looking }

abbrev pub goes_to : Phase → Worker → Worker
goes_to p w = record w { phase = p }

abbrev pub fails : Worker → Worker
fails w = goes_to (aborted w.phase) w

abbrev pub states_of : (ℕ → Fiber) → ℕ → State
states_of fibers a = (fibers a).state

-- The loop over the queue under the lock, and `if (need_tickle)`.
abbrev pub take_task : Picked → Shared → Worker → Shared × Worker
take_task Picked.assertion s w = (s, fails w)
take_task (picked need_tickle none left) s w =
    (record s { scheduler = tickle_if need_tickle s.scheduler }, goes_to without_task w)
take_task (picked need_tickle (some task) left) s w = (
  record s {
    scheduler = tickle_if need_tickle (record s.scheduler {
      fibers = left;
      active_thread_count = increment s.scheduler.active_thread_count;
    });
  },
  goes_to (took task) w,
)

unfoldable pub look : Shared → Worker → Shared × Worker
look s w = take_task (pick w.thread (states_of s.fibers) s.scheduler.fibers) s w

-- swapIn of the fiber at `a`.
abbrev pub enter : Bool → ℕ → Checked Fiber → Shared → Worker → Shared × Worker
enter from_cb a (done f) s w =
    (record s { fibers = update s.fibers a f }, goes_to (running from_cb a) w)
enter from_cb a assertion s w = (s, fails w)
enter from_cb a null_pointer s w = (s, fails w)

abbrev pub count_active_down : Shared → Shared
count_active_down s = record s {
  scheduler = record s.scheduler {
    active_thread_count = decrement s.scheduler.active_thread_count;
  };
}

-- A task with a callback: cb_fiber is reset, or a new fiber at `a` with the number `id`.
abbrev pub run_cb : ℕ → ℕ → ℕ → ℕ → Shared → Worker → Shared × Worker
run_cb config a id cb s w = elim w.cb_fiber [
  | some c ↦ enter true c (and_then (reset (some cb) (s.fibers c)) entered) s w
  | none ↦
      enter true a (entered (new_fiber config id cb false 0)) s (record w { cb_fiber = some a })
]

abbrev pub run_rest : ℕ → ℕ → ℕ → Task → Shared → Worker → Shared × Worker
run_rest config a id task s w = elim task.cb [
  | some cb ↦ run_cb config a id cb s w
  | none ↦ (count_active_down s, goes_to looking w)
]

-- From `if (fat.fiber && ...)` to swapIn, or to the `continue` for a task that cannot run.
unfoldable pub begin_task : ℕ → ℕ → ℕ → Task → Shared → Worker → Shared × Worker
begin_task config a id task s w = elim task.fiber [
  | some f ↦
      if not (is_over (s.fibers f).state)
      then enter false f (entered (s.fibers f)) s w
      else run_rest config a id task s w
  | none ↦ run_rest config a id task s w
]

-- How the code of a fiber gives up control: YieldToHold, YieldToReady, or the end of MainFunc.
pub data Leave : Type 0 where
  to_hold to_ready at_end : Leave

abbrev pub left_by : Leave → Fiber → Fiber
left_by to_hold f = record f { state = hold }
left_by to_ready f = record f { state = ready }
left_by at_end f = finished f

abbrev pub leave : Leave → Bool → ℕ → Shared → Worker → Shared × Worker
leave how from_cb a s w = (
  record s { fibers = update s.fibers a (left_by how (s.fibers a)) },
  goes_to (swapped_out from_cb a) w,
)

-- `--m_activeThreadCount`
abbrev pub count_down : Bool → ℕ → Shared → Worker → Shared × Worker
count_down from_cb a s w = (count_active_down s, goes_to (counted_down from_cb a) w)

abbrev pub fiber_task : ℕ → Task
fiber_task f = record { fiber = some f; cb = none; thread = none }

-- cb_fiber is reset with null after its callback has ended.
abbrev pub put_reset : ℕ → Checked Fiber → Shared → Worker → Shared × Worker
put_reset a (done f) s w = (record s { fibers = update s.fibers a f }, goes_to looking w)
put_reset a assertion s w = (s, fails w)
put_reset a null_pointer s w = (s, fails w)

-- cb_fiber no longer holds the fiber.
abbrev pub forgets : Bool → Worker → Worker
forgets from_cb w =
    if from_cb then record w { cb_fiber = none; phase = looking } else goes_to looking w

-- What run does with a fiber that has given up control.
unfoldable pub settle : Bool → ℕ → Shared → Worker → Shared × Worker
settle from_cb a s w =
    let f = s.fibers a in
    if is_ready f.state
    then (record s { scheduler = schedule (fiber_task a) s.scheduler }, forgets from_cb w)
    else if is_over f.state
    then (if from_cb then put_reset a (reset none f) s w else (s, goes_to looking w))
    else (record s { fibers = update s.fibers a (record f { state = hold }) }, forgets from_cb w)

abbrev pub count_idle : (ℕ → ℕ) → Shared → Shared
count_idle f s = record s {
  scheduler = record s.scheduler { idle_thread_count = f s.scheduler.idle_thread_count };
}

-- Without a task: the loop ends, or idle_fiber is swapped in.
unfoldable pub go_idle : Shared → Worker → Shared × Worker
go_idle s w = if is_term w.idle then (s, goes_to ended w) else (
  count_idle increment s,
  if is_exec w.idle then goes_to (aborted idling) w else record w { idle = exec; phase = idling },
)

-- Scheduler::idle from one YieldToHold to the next or to the end, and what run does then.
unfoldable pub idle_round : Shared → Worker → Shared × Worker
idle_round s w = (
  count_idle decrement s,
  record w { idle = if is_stopping s.scheduler then term else hold; phase = looking },
)
