-- ===== src/Fiber/Tests.antt =====
-- Runs of fibers, and the theorem at a concrete input.
use cpp_linux_server_frame.Base.{◌≡◌, refl, false, some, ◌==◌, if◌then◌else◌}
use cpp_linux_server_frame.Fiber.{
  hold, ready, assertion, done, and_then, new_fiber, reset, finished, Thread, main_of_thread,
  swap_in, swap_out, call, back, get_this, get_fiber_id, yield_to_hold, yield_to_ready,
  main_func_end, caller_main_func_end, destroy, entered,
}
use cpp_linux_server_frame.Fiber.Laws.{BackWith, swap_in-BackWith}

-- The main fiber stands at 1, a fiber at 2.
abbrev thread : Thread
thread = record {
  fibers = λ a. if a == 2 then new_fiber 1024 5 7 false 0 else main_of_thread;
  this = some 1;
  thread_fiber = some 1;
  main_fiber = some 1;
  fiber_count = 2;
}

swap_in-BackWith_example :
    BackWith thread 1 2
      (record (thread.fibers 2) { state = hold })
      (and_then (swap_in 2 thread) (yield_to_hold 9))
    × BackWith thread 1 2
        (record (thread.fibers 2) { state = ready })
        (and_then (swap_in 2 thread) (yield_to_ready 9))
    × BackWith thread 1 2
        (finished (thread.fibers 2))
        (and_then (swap_in 2 thread) (main_func_end 9))
unfolding new_fiber
swap_in-BackWith_example = swap_in-BackWith thread 1 2 9 refl (λ h. cc) refl

-- A fiber that runs cannot be entered.
entered_twice : and_then (swap_in 2 thread) (swap_in 2) ≡ assertion
unfolding swap_in entered new_fiber
entered_twice = refl

-- The root fiber of a scheduler gives control back to the main fiber of its thread.
called :
    and_then (call 2 thread) (λ t. and_then (caller_main_func_end 9 t) (λ u. done (get_fiber_id u)))
    ≡ done 0
unfolding call caller_main_func_end back get_this get_fiber_id entered new_fiber
called = refl

-- A fiber that waits must not be destroyed.
destroyed_on_hold :
    and_then (swap_in 2 thread) (λ t. and_then (yield_to_hold 9 t) (destroy 2)) ≡ assertion
unfolding swap_in entered new_fiber yield_to_hold get_this swap_out destroy
destroyed_on_hold = refl

-- A fiber that has ended is used again.
used_again :
    and_then
      (swap_in 2 thread)
      (λ t. and_then (main_func_end 9 t) (λ u. reset (some 8) (u.fibers 2)))
    ≡ done (new_fiber 1024 5 8 false 0)
unfolding swap_in entered new_fiber main_func_end get_this swap_out reset
used_again = refl
