-- ===== src/Scheduler.antt =====
-- Scheduler (yuan/scheduler.h, yuan/scheduler.cc): the queue of tasks and the flags. Child modules
-- model the loop of the workers. A call of the virtual tickle is counted.
pub mod Queue
pub mod Run
pub mod System
mod Tests
use cpp_linux_server_frame.Base.{
  ℕ, zero, suc, ◌+◌, ◌-◌, ◌%◌, ◌^◌, Bool, true, false, ◌&&◌, ◌||◌, not, List, [], ◌∷◌, ◌++◌, Option,
  none, some, ◌==◌, if◌then◌else◌,
}
use cpp_linux_server_frame.Fiber.{
  State, is_exec, is_over, is_init, is_some, Checked, assertion, done, checked,
}

-- Scheduler::FiberAndThread; no thread is the threadId -1.
pub record Task : Type 0 where
  pub fiber : Option ℕ
  pub cb : Option ℕ
  pub thread : Option ℕ

pub record Scheduler : Type 0 where
  pub fibers : List Task
  pub root_fiber : Option ℕ
  pub thread_ids : List ℕ
  pub thread_count : ℕ
  pub active_thread_count : ℕ
  pub idle_thread_count : ℕ
  pub stopping : Bool
  pub auto_stop : Bool
  -- m_rootThreadId; none is -1.
  pub root_thread : Option ℕ
  -- How many threads m_threads holds.
  pub threads : ℕ
  pub tickles : ℕ

abbrev pub increment : ℕ → ℕ
increment n = (n + 1) % 2 ^ 64

abbrev pub decrement : ℕ → ℕ
decrement n = (n + (2 ^ 64 - 1)) % 2 ^ 64

-- The constructor, on a thread `caller`; `root` is the address that new returns, and `current` is
-- whether the thread has a scheduler.
unfoldable pub new_scheduler : ℕ → Bool → ℕ → ℕ → Bool → Checked Scheduler
new_scheduler threads use_caller caller root current =
    checked (not (threads == 0) && not (use_caller && current)) (record {
      fibers = [];
      root_fiber = if use_caller then some root else none;
      thread_ids = if use_caller then caller ∷ [] else [];
      thread_count = if use_caller then threads - 1 else threads;
      active_thread_count = 0;
      idle_thread_count = 0;
      stopping = true;
      auto_stop = false;
      root_thread = if use_caller then some caller else none;
      threads = 0;
      tickles = 0;
    })

abbrev pub tickle : Scheduler → Scheduler
tickle s = record s { tickles = s.tickles + 1 }

abbrev pub tickle_if : Bool → Scheduler → Scheduler
tickle_if b s = if b then tickle s else s

abbrev pub is_empty : List Task → Bool
is_empty [] = true
is_empty (t ∷ l) = false

abbrev pub is_runnable : Task → Bool
is_runnable t = is_some t.cb || is_some t.fiber

-- scheduleNoLock
unfoldable pub schedule_no_lock : Task → Scheduler → Bool × Scheduler
schedule_no_lock task s =
    (is_empty s.fibers, if is_runnable task then record s { fibers = s.fibers ++ task ∷ [] } else s)

-- schedule
unfoldable pub schedule : Task → Scheduler → Scheduler
schedule task s = let (need_tickle, s') = schedule_no_lock task s in tickle_if need_tickle s'

-- schedule on a range, under one lock
unfoldable pub schedule_range : List Task → Bool → Scheduler → Bool × Scheduler
schedule_range [] need_tickle s = (need_tickle, s)
schedule_range (task ∷ l) need_tickle s =
    let (needed, s') = schedule_no_lock task s in schedule_range l (needed || need_tickle) s'

unfoldable pub schedule_all : List Task → Scheduler → Scheduler
schedule_all l s = let (need_tickle, s') = schedule_range l false s in tickle_if need_tickle s'

-- start, where the new threads have the given ids.
unfoldable pub start : List ℕ → Scheduler → Checked Scheduler
start ids s =
    if not s.stopping
    then done s
    else checked (s.threads == 0)
        (record s { stopping = false; threads = s.thread_count; thread_ids = s.thread_ids ++ ids })

-- Scheduler::stopping
unfoldable pub is_stopping : Scheduler → Bool
is_stopping s = s.auto_stop && s.stopping && is_empty s.fibers && (s.active_thread_count == 0)

-- The loop of stop that wakes every thread.
unfoldable pub tickle_times : ℕ → Scheduler → Scheduler
tickle_times zero s = s
tickle_times (suc n) s = tickle_times n (tickle s)

-- stop, up to where it calls the root fiber or joins the threads: the result is whether it goes on
-- to do that, and whether it calls the root fiber. `here` is whether the thread runs in this
-- scheduler, `root` the state of the root fiber.
pub data Stop : Type 0 where
  stopped : Stop
  joins : (calls_root : Bool) → Stop

abbrev pub only_root : State → Scheduler → Bool
only_root root s = is_some s.root_fiber && (s.thread_count == 0) && (is_over root || is_init root)

unfoldable pub stop : Bool → State → Scheduler → Checked (Stop × Scheduler)
stop here root s =
    let early = record s { auto_stop = true; stopping = true } in
    let woken = tickle_if (is_some s.root_fiber) (tickle_times s.thread_count early) in
    if only_root root s && is_stopping early
    then done (stopped, early)
    else if (if is_some s.root_thread then here else not here)
    then done (joins (is_some s.root_fiber && not (is_stopping woken)), woken)
    else assertion
