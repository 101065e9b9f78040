-- ===== src/Scheduler/System/Moves.antt =====
-- Every section of the loop keeps the counters, the queue and the flags in order.
use cpp_linux_server_frame.Base.{
  ℕ, ◌+◌, ◌^◌, ◌<◌, ◌≡◌, refl, ap, sym, ◌∙◌, Bool, true, false, if◌then◌else◌, Bool-cases, branch,
  inl, inr, arith,
}
use cpp_linux_server_frame.Fiber.{hold, exec, term, is_exec, is_term, update}
use cpp_linux_server_frame.Scheduler.{Scheduler, increment, is_stopping}
use cpp_linux_server_frame.Scheduler.Run.{
  Phase, without_task, swapped_out, counted_down, idling, aborted, Worker, Shared, goes_to, left_by,
  count_idle, go_idle, idle_round,
}
use cpp_linux_server_frame.Scheduler.System.{
  Move, looks, begins, leaves, counts_down, settles, goes_idle, idles,
}
use cpp_linux_server_frame.Scheduler.System.Invariant.{busy, waiting, is_ended, Asked, Fits}
use cpp_linux_server_frame.Scheduler.System.Kept.{
  increment_lem, decrement_lem, Kept, clash, same_flags, moved, down-Kept,
}
use cpp_linux_server_frame.Scheduler.System.Tasks.{look-Kept, begin_task-Kept, settle-Kept}

pub is_stopping-Asked : (s : Scheduler) → is_stopping s ≡ true → Asked s
unfolding is_stopping
is_stopping-Asked s h = (ground arith, ground arith)

module _ (n k : ℕ) (s : Shared) (w : Worker) (f : Fits n k s.scheduler w) where
  -- go_idle and idle_round
  go_idle-Kept : k + 1 < 2 ^ 64 → w.phase ≡ without_task → Kept n k s.scheduler (go_idle s w)
  unfolding go_idle
  go_idle-Kept h e = elim (Bool-cases (is_term w.idle)) [
    | inl t ↦
        rw (go_idle, t)
          (record {
            flags = same_flags;
            fits = record {
              active = f.active ∙ ap (λ (p : Phase). busy p + n) e;
              idle = f.idle ∙ ap (λ (p : Phase). waiting p + k) e;
              runnable = f.runnable;
              honest = record { term = f.honest.term; over = λ _. f.honest.term t };
            };
          })
    | inr t ↦
        rw (go_idle, t)
          (branch (λ (w' : Worker). Kept n k s.scheduler (count_idle increment s, w'))
            (is_exec w.idle) _ _
            (λ _. counted (goes_to (aborted idling) w) refl refl refl f.honest.term)
            (λ _. counted (record w { idle = exec; phase = idling }) refl refl refl (λ x. cc)))
  ]
    where
      counted :
          (w' : Worker)
          → busy w'.phase ≡ 0
          → waiting w'.phase ≡ 1
          → is_ended w'.phase ≡ false
          → (is_term w'.idle ≡ true → Asked s.scheduler)
          → Kept n k s.scheduler (count_idle increment s, w')
      counted w' b i o t = record {
        flags = record { auto_stop = refl; stopping = refl };
        fits = record {
          active = f.active ∙ ap (λ (p : Phase). busy p + n) e ∙ ap (λ (x : ℕ). x + n) (sym b);
          idle =
              increment_lem s.scheduler.idle_thread_count k
                (f.idle ∙ ap (λ (p : Phase). waiting p + k) e) h
              ∙ ap (λ (x : ℕ). x + k) (sym i);
          runnable = f.runnable;
          honest = record { term = t; over = λ x. absurd (clash x o) };
        };
      }

  idle_round-Kept : k + 1 < 2 ^ 64 → w.phase ≡ idling → Kept n k s.scheduler (idle_round s w)
  unfolding idle_round
  idle_round-Kept h e = record {
    flags = record { auto_stop = refl; stopping = refl };
    fits = record {
      active = f.active ∙ ap (λ (p : Phase). busy p + n) e;
      idle =
          decrement_lem s.scheduler.idle_thread_count k
            (f.idle ∙ ap (λ (p : Phase). waiting p + k) e) h;
      runnable = f.runnable;
      honest = record { term = asked (is_stopping s.scheduler) refl; over = λ x. cc };
    };
  }
    where
      asked :
          (c : Bool)
          → is_stopping s.scheduler ≡ c
          → is_term (if c then term else hold) ≡ true
          → Asked s.scheduler
      asked true h x = is_stopping-Asked s.scheduler h
      asked false h x = cc

-- One section of the loop of a worker.
pub Move-Kept :
    {n k : ℕ} {s : Shared} {w : Worker} {r : Shared × Worker}
    → n + 1 < 2 ^ 64
    → k + 1 < 2 ^ 64
    → Fits n k s.scheduler w
    → Move s w r
    → Kept n k s.scheduler r
Move-Kept {n} {k} {s} {w} h i f (looks e) = look-Kept n k s w f h e
Move-Kept {n} {k} {s} {w} h i f (begins config a id t e) =
    begin_task-Kept n k s w f h config a id t e
Move-Kept {n} {k} {s} {w} h i f (leaves how b a e) =
    moved (update s.fibers a (left_by how (s.fibers a))) s.scheduler w (goes_to (swapped_out b a) w)
      (ap busy (sym e)) (ap waiting (sym e)) refl refl f
Move-Kept {n} {k} {s} {w} h i f (counts_down b a e) =
    down-Kept n k s w f (counted_down b a) h (ap busy e) (ap waiting e) refl refl refl
Move-Kept {n} {k} {s} {w} h i f (settles b a e) = settle-Kept n k s w f b a e
Move-Kept {n} {k} {s} {w} h i f (goes_idle e) = go_idle-Kept n k s w f i e
Move-Kept {n} {k} {s} {w} h i f (idles e) = idle_round-Kept n k s w f i e
