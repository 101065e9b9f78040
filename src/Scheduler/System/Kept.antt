-- ===== src/Scheduler/System/Kept.antt =====
-- What a section of the loop keeps: the counters, the queue and the flags.
use cpp_linux_server_frame.Base.{
  ℕ, ◌+◌, ◌^◌, ◌<◌, ◌≡◌, refl, ap, sym, ◌∙◌, Bool, true, false, List, [], ◌∷◌, ◌++◌, Bool-cases,
  inl, inr, arith,
}
use cpp_linux_server_frame.Fiber.{Fiber, Checked, assertion, null_pointer, done, update}
use cpp_linux_server_frame.Scheduler.{
  Task, Scheduler, increment, decrement, is_empty, is_runnable, tickle_if, schedule,
  schedule_no_lock,
}
use cpp_linux_server_frame.Scheduler.Queue.Order.{All, Runnable}
use cpp_linux_server_frame.Scheduler.Run.{
  Phase, running, Worker, Shared, goes_to, fails, enter, count_active_down,
}
use cpp_linux_server_frame.Scheduler.System.Invariant.{busy, waiting, is_ended, Asked, Honest, Fits}

pub increment_lem : (m n : ℕ) → m ≡ 0 + n → n + 1 < 2 ^ 64 → increment m ≡ 1 + n
increment_lem m n e h = omega arith

pub decrement_lem : (m n : ℕ) → m ≡ 1 + n → n + 1 < 2 ^ 64 → decrement m ≡ 0 + n
decrement_lem m n e h = omega arith

pub clash : {c : Bool} → c ≡ true → c ≡ false → ⊥
clash p q = cc

-- Two schedulers have the same flags.
pub record SameFlags (s s' : Scheduler) : Type 0 where
  pub auto_stop : s'.auto_stop ≡ s.auto_stop
  pub stopping : s'.stopping ≡ s.stopping

SameFlags-Asked : {s s' : Scheduler} → SameFlags s s' → Asked s → Asked s'
SameFlags-Asked f a = (f.auto_stop ∙ a.0, f.stopping ∙ a.1)

pub SameFlags-Honest : {s s' : Scheduler} {w : Worker} → SameFlags s s' → Honest s w → Honest s' w
SameFlags-Honest f h = record {
  term = λ e. SameFlags-Asked f (h.term e);
  over = λ e. SameFlags-Asked f (h.over e);
}

pub tickle_if-SameFlags : (b : Bool) (s : Scheduler) → SameFlags s (tickle_if b s)
tickle_if-SameFlags true s = record { auto_stop = refl; stopping = refl }
tickle_if-SameFlags false s = record { auto_stop = refl; stopping = refl }

-- The counters and the queue are those of another scheduler.
pub record SameWork (s s' : Scheduler) : Type 0 where
  pub active : s'.active_thread_count ≡ s.active_thread_count
  pub idle : s'.idle_thread_count ≡ s.idle_thread_count
  pub flags : SameFlags s s'

pub tickle_if-SameWork : (b : Bool) (s : Scheduler) → SameWork s (tickle_if b s)
tickle_if-SameWork true s = record {
  active = refl;
  idle = refl;
  flags = tickle_if-SameFlags true s;
}
tickle_if-SameWork false s = record {
  active = refl;
  idle = refl;
  flags = tickle_if-SameFlags false s;
}

pub tickle_if-Runnable :
    (b : Bool) (s : Scheduler) → All Runnable s.fibers → All Runnable (tickle_if b s).fibers
tickle_if-Runnable true s a = a
tickle_if-Runnable false s a = a

pub schedule-SameWork : (t : Task) (s : Scheduler) → SameWork s (schedule t s)
unfolding schedule schedule_no_lock
schedule-SameWork t s = elim (Bool-cases (is_runnable t)) [
  | inl h ↦
      rw (schedule, schedule_no_lock, h)
        (along (tickle_if-SameWork (is_empty s.fibers) (record s { fibers = s.fibers ++ t ∷ [] })))
  | inr h ↦ rw (schedule, schedule_no_lock, h) (tickle_if-SameWork (is_empty s.fibers) s)
]
  where
    along : {x : Scheduler} {l : List Task} → SameWork (record s { fibers = l }) x → SameWork s x
    along w = record {
      active = w.active;
      idle = w.idle;
      flags = record { auto_stop = w.flags.auto_stop; stopping = w.flags.stopping };
    }

-- What a section of the loop keeps, where the other workers count as `n` and `k`.
pub record Kept (n k : ℕ) (s : Scheduler) (r : Shared × Worker) : Type 0 where
  pub flags : SameFlags s r.0.scheduler
  pub fits : Fits n k r.0.scheduler r.1

pub same_flags : {s : Scheduler} → SameFlags s s
same_flags = record { auto_stop = refl; stopping = refl }

-- The worker alone has moved.
pub moved :
    {n k : ℕ} (fibers : ℕ → Fiber) (s : Scheduler) (w w' : Worker)
    → busy w'.phase ≡ busy w.phase
    → waiting w'.phase ≡ waiting w.phase
    → is_ended w'.phase ≡ false
    → w'.idle ≡ w.idle
    → Fits n k s w
    → Kept n k s (record { scheduler = s; fibers = fibers }, w')
moved fibers s w w' b i e h f = record {
  flags = same_flags;
  fits = record {
    active = rw b f.active;
    idle = rw i f.idle;
    runnable = f.runnable;
    honest = record { term = λ t. f.honest.term (rw h at t); over = λ t. absurd (clash t e) };
  };
}

module _ (n k : ℕ) (s : Shared) (w : Worker) (f : Fits n k s.scheduler w) where
  pub fails-Kept : Kept n k s.scheduler (s, fails w)
  fails-Kept = moved s.fibers s.scheduler w (fails w) refl refl refl refl f

  -- The worker still holds its task.
  pub enter-Kept :
      (b : Bool) (a : ℕ) (c : Checked Fiber) (w' : Worker)
      → busy w.phase ≡ 1
      → waiting w.phase ≡ 0
      → w'.idle ≡ w.idle
      → w'.phase ≡ w.phase
      → Kept n k s.scheduler (enter b a c s w')
  enter-Kept b a (done g) w' h i e p =
      moved (update s.fibers a g) s.scheduler w (goes_to (running b a) w') (sym h) (sym i) refl e f
  enter-Kept b a assertion w' h i e p =
      moved s.fibers s.scheduler w (fails w') (ap busy p) (ap waiting p) refl e f
  enter-Kept b a null_pointer w' h i e p =
      moved s.fibers s.scheduler w (fails w') (ap busy p) (ap waiting p) refl e f

  -- The worker no longer counts.
  pub down-Kept :
      (p : Phase)
      → n + 1 < 2 ^ 64
      → busy w.phase ≡ 1
      → waiting w.phase ≡ 0
      → busy p ≡ 0
      → waiting p ≡ 0
      → is_ended p ≡ false
      → Kept n k s.scheduler (count_active_down s, goes_to p w)
  down-Kept p h b i b' i' e = record {
    flags = record { auto_stop = refl; stopping = refl };
    fits = record {
      active = omega (arith, f.active, b, b', h);
      idle = omega (arith, f.idle, i, i');
      runnable = f.runnable;
      honest = record { term = f.honest.term; over = λ t. absurd (clash t e) };
    };
  }
