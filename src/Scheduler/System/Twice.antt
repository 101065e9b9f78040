-- ===== src/Scheduler/System/Twice.antt =====
-- A fiber that is in the queue twice.
use cpp_linux_server_frame.Base.{ℕ, ◌≡◌, refl, ap, ◌∙◌, false, List, ◌∷◌, some}
use cpp_linux_server_frame.Fiber.{State, exec, is_exec, is_over, Fiber, entered, update}
use cpp_linux_server_frame.Fiber.Laws.{update_self}
use cpp_linux_server_frame.Scheduler.{Task, increment}
use cpp_linux_server_frame.Scheduler.Queue.{picked, pick}
use cpp_linux_server_frame.Scheduler.Run.{
  took, running, aborted, Worker, Shared, goes_to, states_of, take_task, look, fiber_task,
  begin_task, fails,
}

-- The first two sections of the loop of two workers, in turn.
abbrev pub both_look : Shared → Worker → Worker → Shared × Worker × Worker
both_look s v w = let (s', v') = look s v in let (s'', w') = look s' w in (s'', v', w')

abbrev pub both_begin : ℕ → ℕ → ℕ → Task → Shared → Worker → Worker → Shared × Worker × Worker
both_begin config a id t s v w =
    let (s', v') = begin_task config a id t s v in
    let (s'', w') = begin_task config a id t s' w in (s'', v', w')

-- The shared state after a task has been taken.
abbrev taken : List Task → Shared → Shared
taken l s = record s {
  scheduler = record s.scheduler {
    fibers = l;
    active_thread_count = increment s.scheduler.active_thread_count;
  };
}

pick_first :
    (thread f : ℕ) (states : ℕ → State) (l : List Task)
    → is_exec (states f) ≡ false
    → pick thread states (fiber_task f ∷ l) ≡ picked false (some (fiber_task f)) l
unfolding pick
pick_first thread f states l h = rw (pick, h) refl

look_first :
    (s : Shared) (w : Worker) (f : ℕ) (l : List Task)
    → s.scheduler.fibers ≡ fiber_task f ∷ l
    → is_exec (s.fibers f).state ≡ false
    → look s w ≡ (taken l s, goes_to (took (fiber_task f)) w)
unfolding look
look_first s w f l e h =
    ap (λ (q : List Task). take_task (pick w.thread (states_of s.fibers) q) s w) e
    ∙ ap (λ p. take_task p s w) (pick_first w.thread f (states_of s.fibers) l h)

begin_first :
    (config a id f : ℕ) (s : Shared) (w : Worker)
    → is_exec (s.fibers f).state ≡ false
    → is_over (s.fibers f).state ≡ false
    → begin_task config a id (fiber_task f) s w ≡ (
      record s { fibers = update s.fibers f (record (s.fibers f) { state = exec }) },
      goes_to (running false f) w,
    )
unfolding begin_task entered
begin_first config a id f s w h o = rw (begin_task, o, entered, h) refl

begin_again :
    (config a id f : ℕ) (s : Shared) (w : Worker)
    → (s.fibers f).state ≡ exec
    → begin_task config a id (fiber_task f) s w ≡ (s, fails w)
unfolding begin_task entered
begin_again config a id f s w e = rw (begin_task, ap is_over e, entered, ap is_exec e) refl

-- Where a fiber that is neither in EXEC nor ended stands at the front of the queue twice, for any
-- thread, and two workers look at the queue before either begins its task, both take the fiber;
-- the first enters it, and the second fails the assertion of swapIn.
pub scheduled_twice :
    (config a id f : ℕ) (l : List Task) (s : Shared) (v w : Worker)
    → s.scheduler.fibers ≡ fiber_task f ∷ fiber_task f ∷ l
    → is_exec (s.fibers f).state ≡ false
    → is_over (s.fibers f).state ≡ false
    → let (s', v', w') = both_look s v w in
      let (s'', v'', w'') = both_begin config a id (fiber_task f) s' v' w' in
      (v''.phase ≡ running false f) × (w''.phase ≡ aborted (took (fiber_task f)))
scheduled_twice config a id f l s v w e h o =
    rw
      (
        look_first s v f (fiber_task f ∷ l) e h,
        look_first (taken (fiber_task f ∷ l) s) w f l refl h,
        begin_first config a id f both_took (goes_to (took (fiber_task f)) v) h o,
        begin_again config a id f entered_once (goes_to (took (fiber_task f)) w) (
            ap (λ (g : Fiber). g.state)
              (update_self s.fibers f (record (s.fibers f) { state = exec }))),
      )
      (refl, refl)
  where
    both_took : Shared
    both_took = taken l (taken (fiber_task f ∷ l) s)

    entered_once : Shared
    entered_once = record both_took {
      fibers = update s.fibers f (record (s.fibers f) { state = exec });
    }
