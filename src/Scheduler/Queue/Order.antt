-- ===== src/Scheduler/Queue/Order.antt =====
-- The task that is taken is the first that the thread may run, and no other leaves the queue.
use cpp_linux_server_frame.Base.{
  ℕ, ◌≡◌, inl, inr, ap, subst, ◌∙◌, Bool, true, false, ◌||◌, List, [], ◌∷◌, ◌++◌, none, some,
  Bool-cases,
}
use cpp_linux_server_frame.Fiber.{State}
use cpp_linux_server_frame.Scheduler.{Task, is_runnable}
use cpp_linux_server_frame.Scheduler.Queue.{elsewhere, is_running, Picked, picked, skip, pick}

pub data All (P : Task → Type 0) : List Task → Type 0 where
  nil : All P []
  cons : {t : Task} {l : List Task} → P t → All P l → All P (t ∷ l)

-- A task with a callback or a fiber.
abbrev pub Runnable : Task → Type 0
Runnable t = is_runnable t ≡ true

module _ (thread : ℕ) (states : ℕ → State) where
  -- The tasks that the thread passes over, and those that it may run.
  abbrev pub Passed : Task → Type 0
  Passed t = (elsewhere thread t.thread || is_running states t.fiber) ≡ true

  abbrev pub Free : Task → Type 0
  Free t = (elsewhere thread t.thread || is_running states t.fiber) ≡ false

  abbrev pub any_elsewhere : List Task → Bool
  any_elsewhere [] = false
  any_elsewhere (t ∷ l) = elsewhere thread t.thread || any_elsewhere l

  -- What the loop finds in a queue: all tasks are passed over, or the first that is not is taken.
  pub data Finds : List Task → Picked → Type 0 where
    none_free : {l : List Task} → All Passed l → Finds l (picked (any_elsewhere l) none l)
    first_free :
        (front back : List Task) (t : Task)
        → All Passed front
        → Free t
        → Runnable t
        → Finds (front ++ t ∷ back) (picked (any_elsewhere front) (some t) (front ++ back))

  Finds-skip :
      (t : Task) {l : List Task} {p : Picked}
      → Passed t
      → Finds l p
      → Finds (t ∷ l) (skip (elsewhere thread t.thread) t p)
  Finds-skip t h (none_free a) = none_free (cons h a)
  Finds-skip t h (first_free front back u a f r) = first_free (t ∷ front) back u (cons h a) f r

  -- On a queue of tasks with a callback or a fiber, the loop of run fails no assertion. It takes
  -- the first task that is neither for another thread nor has a fiber in EXEC, and leaves the
  -- others in their order; if there is none, the queue stays as it is. It asks for a tickle
  -- exactly if it has passed over a task for another thread.
  pub pick-Finds : (l : List Task) → All Runnable l → Finds l (pick thread states l)
  unfolding pick
  pick-Finds [] a = none_free nil
  pick-Finds (t ∷ l) (cons r a) = elim (Bool-cases (elsewhere thread t.thread)) [
    | inl e ↦
        rw (pick, e)
          (subst (λ (b : Bool). Finds (t ∷ l) (skip b t (pick thread states l))) e
            (Finds-skip t (ap (λ (b : Bool). b || is_running states t.fiber) e) (pick-Finds l a)))
    | inr e ↦ elim (Bool-cases (is_running states t.fiber)) [
      | inl x ↦
          rw (pick, e, r, x)
            (subst (λ (b : Bool). Finds (t ∷ l) (skip b t (pick thread states l))) e
              (Finds-skip t (ap (λ (b : Bool). b || is_running states t.fiber) e ∙ x)
                (pick-Finds l a)))
      | inr x ↦
          rw (pick, e, r, x)
            (first_free [] l t nil (ap (λ (b : Bool). b || is_running states t.fiber) e ∙ x) r)
    ]
  ]
