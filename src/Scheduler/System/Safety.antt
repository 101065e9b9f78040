-- ===== src/Scheduler/System/Safety.antt =====
-- Every system that workers, schedule and stop reach is valid; a scheduler that says it is stopping
-- has nothing left to run.
use cpp_linux_server_frame.Base.{
  ℕ, ◌+◌, ◌^◌, ◌<◌, ◌≡◌, refl, ap, sym, subst, ◌∙◌, true, List, [], ◌∷◌, ◌++◌, map, length,
  length-map, length-append, arith,
}
use cpp_linux_server_frame.Fiber.{Fiber}
use cpp_linux_server_frame.Scheduler.{Task, Scheduler, is_empty, is_stopping}
use cpp_linux_server_frame.Scheduler.Queue.Order.{All, Runnable}
use cpp_linux_server_frame.Scheduler.Queue.Turns.{schedule-Runnable}
use cpp_linux_server_frame.Scheduler.Run.{Phase, looking, Worker, Shared, new_worker}
use cpp_linux_server_frame.Scheduler.System.{
  System, Move, Step, moves, schedules, stops, Reach, at_start, later, started,
}
use cpp_linux_server_frame.Scheduler.System.Invariant.{
  busy, waiting, Asked, Honest, Fits, total, Each, nil, cons, IsValid,
}
use cpp_linux_server_frame.Scheduler.System.Kept.{schedule-SameWork, Kept}
use cpp_linux_server_frame.Scheduler.System.Moves.{Move-Kept}
use cpp_linux_server_frame.Scheduler.System.Workers.{
  total-append, busy-le, waiting-le, Each-append, parts_of, all_along, others-lt,
}

-- One worker moves.
module _ (x : System) (front back : List Worker) (w : Worker) (e : x.workers ≡ front ++ w ∷ back)
    (v : IsValid x) where
  abbrev other_busy : ℕ
  other_busy = total busy front + total busy back

  abbrev other_waiting : ℕ
  other_waiting = total waiting front + total waiting back

  parts :
      Each (Honest x.shared.scheduler) front
      × Honest x.shared.scheduler w
      × Each (Honest x.shared.scheduler) back
  parts = parts_of front back w (subst (Each (Honest x.shared.scheduler)) e v.honest)

  few : length (front ++ w ∷ back) < 2 ^ 64
  few = subst (λ (l : List Worker). length l < 2 ^ 64) e v.few

  one-Fits : Fits other_busy other_waiting x.shared.scheduler w
  one-Fits = record {
    active = v.active ∙ ap (total busy) e ∙ total-append busy front back w;
    idle = v.idle ∙ ap (total waiting) e ∙ total-append waiting front back w;
    runnable = v.runnable;
    honest = parts.1;
  }

  one_moves-IsValid :
      (r : Shared × Worker)
      → Kept other_busy other_waiting x.shared.scheduler r
      → IsValid (record { shared = r.0; workers = front ++ r.1 ∷ back })
  one_moves-IsValid r k = record {
    active = k.fits.active ∙ sym (total-append busy front back r.1);
    idle = k.fits.idle ∙ sym (total-append waiting front back r.1);
    runnable = k.fits.runnable;
    honest =
        Each-append front (r.1 ∷ back) (all_along front k.flags parts.0)
          (cons k.fits.honest (all_along back k.flags parts.2));
    few = omega (arith, few, length-append front (w ∷ back), length-append front (r.1 ∷ back));
  }

  Move-IsValid :
      (r : Shared × Worker)
      → Move x.shared w r
      → IsValid (record { shared = r.0; workers = front ++ r.1 ∷ back })
  Move-IsValid r m = one_moves-IsValid r (
      Move-Kept (others-lt busy front back w busy-le few)
        (others-lt waiting front back w waiting-le few) one-Fits m)

Asked-Honest : (s : Scheduler) (l : List Worker) → Asked s → Each (Honest s) l
Asked-Honest s [] a = nil
Asked-Honest s (w ∷ l) a = cons (record { term = λ _. a; over = λ _. a }) (Asked-Honest s l a)

Step-IsValid : {x y : System} → IsValid x → Step x y → IsValid y
Step-IsValid {x} v (moves front back w r e m) = Move-IsValid x front back w e v r m
Step-IsValid {x} v (schedules t) =
    let same = schedule-SameWork t x.shared.scheduler in
    record {
      active = same.active ∙ v.active;
      idle = same.idle ∙ v.idle;
      runnable = schedule-Runnable t x.shared.scheduler v.runnable;
      honest = all_along x.workers same.flags v.honest;
      few = v.few;
    }
Step-IsValid {x} v stops = record {
  active = v.active;
  idle = v.idle;
  runnable = v.runnable;
  honest = Asked-Honest _ x.workers (refl, refl);
  few = v.few;
}

-- In every interleaving of the workers with calls of schedule and stop, a valid system stays
-- valid: m_activeThreadCount is the number of workers that hold a task or run one,
-- m_idleThreadCount that of the workers in their idle fiber, every task of the queue has a
-- callback or a fiber, and a worker's idle fiber or loop has ended only if stop was called.
pub Reach-IsValid : {x y : System} → IsValid x → Reach x y → IsValid y
Reach-IsValid v at_start = v
Reach-IsValid v (later r s) = Step-IsValid (Reach-IsValid v r) s

-- What start leaves is valid.
total_new : (f : Phase → ℕ) (ids : List ℕ) → f looking ≡ 0 → total f (map new_worker ids) ≡ 0
total_new f [] h = refl
total_new f (i ∷ ids) h = omega (arith, h, total_new f ids h)

new_worker-Honest : (s : Scheduler) (ids : List ℕ) → Each (Honest s) (map new_worker ids)
new_worker-Honest s [] = nil
new_worker-Honest s (i ∷ ids) =
    cons (record { term = λ h. cc; over = λ h. cc }) (new_worker-Honest s ids)

pub started-IsValid :
    (s : Scheduler) (fibers : ℕ → Fiber) (ids : List ℕ)
    → s.active_thread_count ≡ 0
    → s.idle_thread_count ≡ 0
    → All Runnable s.fibers
    → length ids < 2 ^ 64
    → IsValid (started s fibers ids)
started-IsValid s fibers ids a i r h = record {
  active = a ∙ sym (total_new busy ids refl);
  idle = i ∙ sym (total_new waiting ids refl);
  runnable = r;
  honest = new_worker-Honest s ids;
  few = rw (length-map) h;
}

-- No worker holds a task that counts as active.
abbrev pub Quiet : Worker → Type 0
Quiet w = busy w.phase ≡ 0

all-Quiet : (l : List Worker) → total busy l ≡ 0 → Each Quiet l
all-Quiet [] h = nil
all-Quiet (w ∷ l) h = cons (omega arith) (all-Quiet l (omega arith))

empty_lem : (l : List Task) → is_empty l ≡ true → l ≡ []
empty_lem [] h = refl
empty_lem (t ∷ l) h = cc

stopping-Quiet :
    (x : System)
    → IsValid x
    → is_stopping x.shared.scheduler ≡ true
    → (x.shared.scheduler.fibers ≡ []) × Each Quiet x.workers
unfolding is_stopping
stopping-Quiet x v h = (
  empty_lem x.shared.scheduler.fibers (ground arith),
  all-Quiet x.workers (omega (arith, v.active, none_active)),
)
  where
    none_active : x.shared.scheduler.active_thread_count ≡ 0
    none_active = ground arith

-- From a scheduler whose counters are zero and whose queue holds only tasks with a callback or a
-- fiber, with fewer than 2 ^ 64 workers, in every interleaving of the workers with calls of
-- schedule and stop: when stopping() says true, the queue is empty and no worker holds a task
-- between taking it and counting it down.
pub Reach-Quiet :
    (s : Scheduler) (fibers : ℕ → Fiber) (ids : List ℕ) (y : System)
    → s.active_thread_count ≡ 0
    → s.idle_thread_count ≡ 0
    → All Runnable s.fibers
    → length ids < 2 ^ 64
    → Reach (started s fibers ids) y
    → is_stopping y.shared.scheduler ≡ true
    → (y.shared.scheduler.fibers ≡ []) × Each Quiet y.workers
Reach-Quiet s fibers ids y a i r h reach stop =
    stopping-Quiet y (Reach-IsValid (started-IsValid s fibers ids a i r h) reach) stop
