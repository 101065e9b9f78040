-- ===== src/Scheduler/System/Invariant.antt =====
-- The counters of a scheduler count its workers; the queue holds tasks that can run; a worker whose
-- idle fiber has ended has been asked to stop.
use cpp_linux_server_frame.Base.{ℕ, ◌+◌, ◌^◌, ◌<◌, ◌≡◌, Bool, true, false, List, [], ◌∷◌, length}
use cpp_linux_server_frame.Fiber.{is_term}
use cpp_linux_server_frame.Scheduler.{Scheduler}
use cpp_linux_server_frame.Scheduler.Queue.Order.{All, Runnable}
use cpp_linux_server_frame.Scheduler.Run.{
  Phase, looking, took, without_task, running, swapped_out, counted_down, idling, ended, aborted,
  Worker,
}
use cpp_linux_server_frame.Scheduler.System.{System}

-- The worker holds a task that counts as active.
abbrev pub busy : Phase → ℕ
busy (took t) = 1
busy (running b a) = 1
busy (swapped_out b a) = 1
busy looking = 0
busy without_task = 0
busy (counted_down b a) = 0
busy idling = 0
busy ended = 0
busy (aborted p) = busy p

abbrev pub waiting : Phase → ℕ
waiting idling = 1
waiting (took t) = 0
waiting (running b a) = 0
waiting (swapped_out b a) = 0
waiting looking = 0
waiting without_task = 0
waiting (counted_down b a) = 0
waiting ended = 0
waiting (aborted p) = waiting p

abbrev pub is_ended : Phase → Bool
is_ended ended = true
is_ended idling = false
is_ended (took t) = false
is_ended (running b a) = false
is_ended (swapped_out b a) = false
is_ended looking = false
is_ended without_task = false
is_ended (counted_down b a) = false
is_ended (aborted p) = false

-- stop has been called.
abbrev pub Asked : Scheduler → Type 0
Asked s = (s.auto_stop ≡ true) × (s.stopping ≡ true)

pub record Honest (s : Scheduler) (w : Worker) : Type 0 where
  pub term : is_term w.idle ≡ true → Asked s
  pub over : is_ended w.phase ≡ true → Asked s

-- A worker over a scheduler in which the other workers count as `n` and `k`.
pub record Fits (n k : ℕ) (s : Scheduler) (w : Worker) : Type 0 where
  pub active : s.active_thread_count ≡ busy w.phase + n
  pub idle : s.idle_thread_count ≡ waiting w.phase + k
  pub runnable : All Runnable s.fibers
  pub honest : Honest s w

abbrev pub total : (Phase → ℕ) → List Worker → ℕ
total f [] = 0
total f (w ∷ l) = f w.phase + total f l

pub data Each (P : Worker → Type 0) : List Worker → Type 0 where
  nil : Each P []
  cons : {w : Worker} {l : List Worker} → P w → Each P l → Each P (w ∷ l)

pub record IsValid (x : System) : Type 0 where
  pub active : x.shared.scheduler.active_thread_count ≡ total busy x.workers
  pub idle : x.shared.scheduler.idle_thread_count ≡ total waiting x.workers
  pub runnable : All Runnable x.shared.scheduler.fibers
  pub honest : Each (Honest x.shared.scheduler) x.workers
  -- size_t can count the workers.
  pub few : length x.workers < 2 ^ 64
