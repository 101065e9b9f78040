-- ===== src/Scheduler/Queue/Batch.antt =====
-- Scheduling a range of tasks under one lock.
use cpp_linux_server_frame.Base.{
  ℕ, ◌+◌, ◌≡◌, inl, inr, refl, ap, sym, ◌∙◌, Bool, true, false, ◌&&◌, ◌||◌, not, List, [], ◌∷◌,
  ◌++◌, append_assoc, append-nil, if◌then◌else◌, Bool-cases, arith,
}
use cpp_linux_server_frame.Scheduler.{
  Task, Scheduler, is_empty, is_runnable, schedule_no_lock, schedule_range, schedule_all, tickle_if,
}

-- The tasks with a callback or a fiber.
abbrev pub runnables : List Task → List Task
runnables [] = []
runnables (t ∷ l) = if is_runnable t then t ∷ runnables l else runnables l

abbrev pub adds : List Task → Scheduler → Bool
adds l s = not (is_empty l) && is_empty s.fibers

-- What the loop leaves.
record Ranged (l : List Task) (need_tickle : Bool) (s : Scheduler) (r : Bool × Scheduler)
    : Type 0 where
  need : r.0 ≡ need_tickle || adds l s
  fibers : r.1.fibers ≡ s.fibers ++ runnables l
  tickles : r.1.tickles ≡ s.tickles

not_empty : (q : List Task) (t : Task) → is_empty (q ++ t ∷ []) ≡ false
not_empty [] t = refl
not_empty (u ∷ q) t = refl

or_lem : (a b c : Bool) → ((a || b) || (c && false)) ≡ b || a
or_lem a b c = ground arith

or_again : (a b c : Bool) → ((a || b) || (c && a)) ≡ b || a
or_again a b c = ground arith

schedule_range-Ranged :
    (l : List Task) (b : Bool) (s : Scheduler) → Ranged l b s (schedule_range l b s)
unfolding schedule_range schedule_no_lock
schedule_range-Ranged [] b s = record {
  need = ground arith;
  fibers = sym (append-nil s.fibers);
  tickles = refl;
}
schedule_range-Ranged (t ∷ l) b s = elim (Bool-cases (is_runnable t)) [
  | inl h ↦
      let rest =
        schedule_range-Ranged l (is_empty s.fibers || b)
          (record s { fibers = s.fibers ++ t ∷ [] }) in
      rw (schedule_range, schedule_no_lock, h)
        (record {
          need =
              rest.need
              ∙ ap (λ (e : Bool). (is_empty s.fibers || b) || (not (is_empty l) && e))
                  (not_empty s.fibers t)
              ∙ or_lem (is_empty s.fibers) b (not (is_empty l));
          fibers =
              rest.fibers
              ∙ append_assoc s.fibers (t ∷ []) (runnables l)
              ∙ ap (λ (c : Bool). s.fibers ++ (if c then t ∷ runnables l else runnables l)) (sym h);
          tickles = rest.tickles;
        })
  | inr h ↦
      let rest = schedule_range-Ranged l (is_empty s.fibers || b) s in
      rw (schedule_range, schedule_no_lock, h)
        (record {
          need = rest.need ∙ or_again (is_empty s.fibers) b (not (is_empty l));
          fibers =
              rest.fibers
              ∙ ap (λ (c : Bool). s.fibers ++ (if c then t ∷ runnables l else runnables l)) (sym h);
          tickles = rest.tickles;
        })
]

-- schedule of a range appends its tasks that have a callback or a fiber to the queue, in their
-- order, and tickles once if the range is not empty and the queue was empty, else not at all.
pub schedule_all_lem :
    (l : List Task) (s : Scheduler)
    → ((schedule_all l s).fibers ≡ s.fibers ++ runnables l)
      × ((schedule_all l s).tickles ≡ (if adds l s then s.tickles + 1 else s.tickles))
unfolding schedule_all
schedule_all_lem l s =
    let r = schedule_range-Ranged l false s in
    (
      after (schedule_range l false s).0 (schedule_range l false s).1 ∙ r.fibers,
      ticks (schedule_range l false s).0 (schedule_range l false s).1
          ∙ ap
              (λ (b : Bool).
                if b
                then (schedule_range l false s).1.tickles + 1
                else (schedule_range l false s).1.tickles)
              r.need
          ∙ ap (λ (n : ℕ). if adds l s then n + 1 else n) r.tickles,
    )
  where
    after : (b : Bool) (x : Scheduler) → (tickle_if b x).fibers ≡ x.fibers
    after true x = refl
    after false x = refl

    ticks :
        (b : Bool) (x : Scheduler)
        → (tickle_if b x).tickles ≡ (if b then x.tickles + 1 else x.tickles)
    ticks true x = refl
    ticks false x = refl
