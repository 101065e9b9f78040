-- ===== src/Scheduler/Queue.antt =====
-- How run takes a task from the queue: the loop under the lock at the top of Scheduler::run.
pub mod Order
pub mod Turns
pub mod Batch
use cpp_linux_server_frame.Base.{
  ℕ, Bool, true, false, ◌&&◌, ◌||◌, not, List, [], ◌∷◌, Option, none, some, ◌==◌, if◌then◌else◌,
}
use cpp_linux_server_frame.Fiber.{State, is_exec}
use cpp_linux_server_frame.Scheduler.{Task, is_runnable}

-- The task is for another thread.
abbrev pub elsewhere : ℕ → Option ℕ → Bool
elsewhere thread none = false
elsewhere thread (some t) = not (t == thread)

abbrev pub is_running : (ℕ → State) → Option ℕ → Bool
is_running states none = false
is_running states (some f) = is_exec (states f)

-- `need_tickle`, the task taken, and the queue that is left.
pub data Picked : Type 0 where
  assertion : Picked
  picked : (need_tickle : Bool) (task : Option Task) (left : List Task) → Picked

abbrev pub skip : Bool → Task → Picked → Picked
skip elsewhere task assertion = assertion
skip elsewhere task (picked need_tickle taken left) =
    picked (elsewhere || need_tickle) taken (task ∷ left)

-- The loop, on the thread `thread`; `states` are the states of the fibers.
unfoldable pub pick : ℕ → (ℕ → State) → List Task → Picked
pick thread states [] = picked false none []
pick thread states (task ∷ l) =
    let rest = pick thread states l in
    if elsewhere thread task.thread
    then skip true task rest
    else if not (is_runnable task)
    then assertion
    else if is_running states task.fiber
    then skip false task rest
    else picked false (some task) l
