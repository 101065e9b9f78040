-- ===== src/Scheduler/System.antt =====
-- The workers of a scheduler over its shared state, interleaved in any order, while any code may
-- schedule tasks, and stop may be called.
pub mod Invariant
pub mod Kept
pub mod Tasks
pub mod Moves
pub mod Workers
pub mod Safety
pub mod Twice
use cpp_linux_server_frame.Base.{
  ℕ, ◌≡◌, Bool, true, false, List, [], ◌∷◌, ◌++◌, Option, none, some, map,
}
use cpp_linux_server_frame.Fiber.{State, Fiber}
use cpp_linux_server_frame.Scheduler.{Task, Scheduler, schedule, tickle_if, tickle_times}
use cpp_linux_server_frame.Scheduler.Run.{
  Phase, looking, took, without_task, running, swapped_out, counted_down, idling, Worker, Shared,
  Leave, new_worker, look, begin_task, leave, count_down, settle, go_idle, idle_round,
}

-- One section of the loop of a worker. The arguments of `begins` are the stack size of the
-- configuration, the address that new returns, and the number of the new fiber.
pub data Move (s : Shared) (w : Worker) : Shared × Worker → Type 0 where
  looks : w.phase ≡ looking → Move s w (look s w)
  begins : (config a id : ℕ) (t : Task) → w.phase ≡ took t → Move s w (begin_task config a id t s w)
  leaves : (how : Leave) (b : Bool) (a : ℕ) → w.phase ≡ running b a → Move s w (leave how b a s w)
  counts_down : (b : Bool) (a : ℕ) → w.phase ≡ swapped_out b a → Move s w (count_down b a s w)
  settles : (b : Bool) (a : ℕ) → w.phase ≡ counted_down b a → Move s w (settle b a s w)
  goes_idle : w.phase ≡ without_task → Move s w (go_idle s w)
  idles : w.phase ≡ idling → Move s w (idle_round s w)

-- What stop does to the flags, before it wakes the threads.
abbrev pub ask_to_stop : Scheduler → Scheduler
ask_to_stop s = record s { auto_stop = true; stopping = true }

pub record System : Type 0 where
  pub shared : Shared
  pub workers : List Worker

abbrev pub with_scheduler : Scheduler → Shared → Shared
with_scheduler s shared = record shared { scheduler = s }

pub data Step (x : System) : System → Type 0 where
  moves :
      (front back : List Worker) (w : Worker) (r : Shared × Worker)
      → x.workers ≡ front ++ w ∷ back
      → Move x.shared w r
      → Step x (record { shared = r.0; workers = front ++ r.1 ∷ back })
  schedules :
      (t : Task)
      → Step x (record x { shared = with_scheduler (schedule t x.shared.scheduler) x.shared })
  stops : Step x (record x { shared = with_scheduler (ask_to_stop x.shared.scheduler) x.shared })

-- The systems that come from a scheduler that start has just left, with the threads `ids`.
abbrev pub started : Scheduler → (ℕ → Fiber) → List ℕ → System
started s fibers ids = record {
  shared = record { scheduler = s; fibers = fibers };
  workers = map new_worker ids;
}

pub data Reach (x : System) : System → Type 0 where
  at_start : Reach x x
  later : {y z : System} → Reach x y → Step y z → Reach x z
