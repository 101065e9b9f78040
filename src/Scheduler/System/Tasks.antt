-- ===== src/Scheduler/System/Tasks.antt =====
-- The sections of the loop that take a task, run it and settle it.
use cpp_linux_server_frame.Base.{
  ℕ, ◌+◌, ◌^◌, ◌<◌, ◌≡◌, refl, ap, sym, ◌∙◌, Bool, true, false, not, List, [], ◌∷◌, ◌++◌, none,
  some, branch, option_branch,
}
use cpp_linux_server_frame.Fiber.{
  State, is_ready, is_over, Fiber, Checked, assertion, null_pointer, done, update,
}
use cpp_linux_server_frame.Scheduler.{Task, Scheduler, increment, tickle_if, schedule}
use cpp_linux_server_frame.Scheduler.Queue.{Picked, picked, pick}
use cpp_linux_server_frame.Scheduler.Queue.Order.{
  All, cons, Runnable, Finds, none_free, first_free, pick-Finds,
}
use cpp_linux_server_frame.Scheduler.Queue.Turns.{schedule-Runnable}
use cpp_linux_server_frame.Scheduler.Run.{
  Phase, looking, took, without_task, counted_down, Worker, Shared, goes_to, states_of, take_task,
  look, run_cb, run_rest, begin_task, fiber_task, put_reset, forgets, settle,
}
use cpp_linux_server_frame.Scheduler.System.Invariant.{busy, waiting, is_ended, Fits}
use cpp_linux_server_frame.Scheduler.System.Kept.{
  increment_lem, SameWork, SameFlags-Honest, tickle_if-SameWork, tickle_if-Runnable,
  schedule-SameWork, Kept, same_flags, moved, fails-Kept, enter-Kept, down-Kept,
}

-- What is left of the queue.
LeftRunnable : Picked → Type 0
LeftRunnable Picked.assertion = Unit {0}
LeftRunnable (picked b t left) = All Runnable left

All-drop :
    {P : Task → Type 0} (front back : List Task) (t : Task)
    → All P (front ++ t ∷ back)
    → All P (front ++ back)
All-drop [] back t (cons h a) = a
All-drop (u ∷ front) back t (cons h a) = cons h (All-drop front back t a)

Finds-LeftRunnable :
    {thread : ℕ} {states : ℕ → State} {l : List Task} {p : Picked}
    → All Runnable l
    → Finds thread states l p
    → LeftRunnable p
unfolding LeftRunnable
Finds-LeftRunnable a (none_free h) = a
Finds-LeftRunnable a (first_free front back t h f r) = All-drop front back t a

-- The work of a scheduler, and a worker who has moved.
along :
    {n k : ℕ} (s : Scheduler) (r : Shared) (w w' : Worker)
    → SameWork s r.scheduler
    → All Runnable r.scheduler.fibers
    → busy w'.phase ≡ busy w.phase
    → waiting w'.phase ≡ waiting w.phase
    → is_ended w'.phase ≡ false
    → w'.idle ≡ w.idle
    → Fits n k s w
    → Kept n k s (r, w')
along {n} {k} s r w w' same a b i e h f = record {
  flags = same.flags;
  fits = record {
    active = same.active ∙ f.active ∙ ap (λ (x : ℕ). x + n) (sym b);
    idle = same.idle ∙ f.idle ∙ ap (λ (x : ℕ). x + k) (sym i);
    runnable = a;
    honest = SameFlags-Honest same.flags (moved r.fibers s w w' b i e h f).fits.honest;
  };
}

module _ (n k : ℕ) (s : Shared) (w : Worker) (f : Fits n k s.scheduler w) where
  take_task-Kept :
      (p : Picked)
      → n + 1 < 2 ^ 64
      → w.phase ≡ looking
      → LeftRunnable p
      → Kept n k s.scheduler (take_task p s w)
  unfolding LeftRunnable
  take_task-Kept Picked.assertion h e a = fails-Kept n k s w f
  take_task-Kept (picked b none left) h e a =
      along s.scheduler (record s { scheduler = tickle_if b s.scheduler }) w
        (goes_to without_task w) (tickle_if-SameWork b s.scheduler)
        (tickle_if-Runnable b s.scheduler f.runnable) (ap busy (sym e)) (ap waiting (sym e)) refl
        refl f
  take_task-Kept (picked b (some t) left) h e a =
      let sch : Scheduler = record s.scheduler {
        fibers = left;
        active_thread_count = increment s.scheduler.active_thread_count;
      } in
      let same = tickle_if-SameWork b sch in
      record {
        flags = record { auto_stop = same.flags.auto_stop; stopping = same.flags.stopping };
        fits = record {
          active =
              same.active
              ∙ increment_lem s.scheduler.active_thread_count n
                  (f.active ∙ ap (λ (p : Phase). busy p + n) e) h;
          idle = same.idle ∙ f.idle ∙ ap (λ (p : Phase). waiting p + k) e;
          runnable = tickle_if-Runnable b sch a;
          honest =
              SameFlags-Honest {s = s.scheduler}
                (record { auto_stop = same.flags.auto_stop; stopping = same.flags.stopping })
                (record { term = f.honest.term; over = λ t. cc });
        };
      }

  pub look-Kept : n + 1 < 2 ^ 64 → w.phase ≡ looking → Kept n k s.scheduler (look s w)
  unfolding look
  look-Kept h e = take_task-Kept (pick w.thread (states_of s.fibers) s.scheduler.fibers) h e (
      Finds-LeftRunnable f.runnable
        (pick-Finds w.thread (states_of s.fibers) s.scheduler.fibers f.runnable))

  -- begin_task
  module _ (h : n + 1 < 2 ^ 64) (config a id : ℕ) (t : Task) (e : w.phase ≡ took t) where
    run_cb-Kept : (cb : ℕ) → Kept n k s.scheduler (run_cb config a id cb s w)
    run_cb-Kept cb =
        option_branch (Kept n k s.scheduler) w.cb_fiber _ _
          (enter-Kept n k s w f true a _ (record w { cb_fiber = some a }) (ap busy e) (ap waiting e)
            refl refl)
          (λ c. enter-Kept n k s w f true c _ w (ap busy e) (ap waiting e) refl refl)

    run_rest-Kept : Kept n k s.scheduler (run_rest config a id t s w)
    run_rest-Kept =
        option_branch (Kept n k s.scheduler) t.cb _ _
          (down-Kept n k s w f looking h (ap busy e) (ap waiting e) refl refl refl) run_cb-Kept

    pub begin_task-Kept : Kept n k s.scheduler (begin_task config a id t s w)
    unfolding begin_task
    begin_task-Kept = option_branch (Kept n k s.scheduler) t.fiber _ _ run_rest-Kept (λ b.
        branch (Kept n k s.scheduler) (not (is_over (s.fibers b).state)) _ _
          (λ _. enter-Kept n k s w f false b _ w (ap busy e) (ap waiting e) refl refl)
          (λ _. run_rest-Kept))

  -- settle
  module _ (b : Bool) (a : ℕ) (e : w.phase ≡ counted_down b a) where
    forgets-Kept :
        (r : Shared)
        → SameWork s.scheduler r.scheduler
        → All Runnable r.scheduler.fibers
        → Kept n k s.scheduler (r, forgets b w)
    forgets-Kept r same l =
        branch (λ (w' : Worker). Kept n k s.scheduler (r, w')) b _ _
          (λ _.
            along s.scheduler r w (record w { cb_fiber = none; phase = looking }) same l
              (ap busy (sym e)) (ap waiting (sym e)) refl refl f)
          (λ _.
            along s.scheduler r w (goes_to looking w) same l (ap busy (sym e)) (ap waiting (sym e))
              refl refl f)

    put_reset-Kept : (c : Checked Fiber) → Kept n k s.scheduler (put_reset a c s w)
    put_reset-Kept (done g) =
        moved (update s.fibers a g) s.scheduler w (goes_to looking w) (ap busy (sym e))
          (ap waiting (sym e)) refl refl f
    put_reset-Kept assertion = fails-Kept n k s w f
    put_reset-Kept null_pointer = fails-Kept n k s w f

    pub settle-Kept : Kept n k s.scheduler (settle b a s w)
    unfolding settle
    settle-Kept =
        branch (Kept n k s.scheduler) (is_ready (s.fibers a).state) _ _
          (λ _.
            forgets-Kept (record s { scheduler = schedule (fiber_task a) s.scheduler })
              (schedule-SameWork (fiber_task a) s.scheduler)
              (schedule-Runnable (fiber_task a) s.scheduler f.runnable))
          (λ _.
            branch (Kept n k s.scheduler) (is_over (s.fibers a).state) _ _
              (λ _.
                branch (Kept n k s.scheduler) b _ _ (λ _. put_reset-Kept _)
                  (λ _.
                    moved s.fibers s.scheduler w (goes_to looking w) (ap busy (sym e))
                      (ap waiting (sym e)) refl refl f))
              (λ _. forgets-Kept _ same_work f.runnable))
      where
        same_work : SameWork s.scheduler s.scheduler
        same_work = record { active = refl; idle = refl; flags = same_flags }
