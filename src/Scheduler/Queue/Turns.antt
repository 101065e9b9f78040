-- ===== src/Scheduler/Queue/Turns.antt =====
-- A queue over time: tasks are scheduled, and workers take tasks from it, in any order.
use cpp_linux_server_frame.Base.{
  ℕ, suc, ◌<◌, ◌≡◌, ◌⊎◌, inl, inr, refl, ap, sym, subst, Bool, true, false, ◌||◌, List, [], ◌∷◌,
  ◌++◌, append_assoc, Option, none, some, if◌then◌else◌, length, Bool-cases, arith,
}
use cpp_linux_server_frame.Fiber.{State}
use cpp_linux_server_frame.Scheduler.{
  Task, Scheduler, is_empty, is_runnable, schedule_no_lock, schedule, tickle_if,
}
use cpp_linux_server_frame.Scheduler.Queue.{
  elsewhere, is_running, Picked, assertion, picked, skip, pick,
}
use cpp_linux_server_frame.Scheduler.Queue.Order.{All, nil, cons, Runnable}

pub data Turn : Type 0 where
  schedules : Task → Turn
  picks : (thread : ℕ) (states : ℕ → State) → Turn

-- What a worker takes, and the scheduler it leaves.
abbrev pub take_from : Scheduler → Picked → Option Task × Scheduler
take_from s assertion = (none, s)
take_from s (picked need_tickle task left) =
    (task, tickle_if need_tickle (record s { fibers = left }))

abbrev pub join : Option Task → List Task → List Task
join none l = l
join (some t) l = t ∷ l

-- The tasks that are taken in the course of the turns.
unfoldable pub taken : List Turn → Scheduler → List Task
taken [] s = []
taken (schedules t ∷ turns) s = taken turns (schedule t s)
taken (picks thread states ∷ turns) s =
    let (task, s') = take_from s (pick thread states s.fibers) in join task (taken turns s')

abbrev pub number_of_picks : List Turn → ℕ
number_of_picks [] = 0
number_of_picks (schedules t ∷ turns) = number_of_picks turns
number_of_picks (picks thread states ∷ turns) = suc (number_of_picks turns)

abbrev pub In : Task → List Task → Type 0
In t [] = ⊥
In t (u ∷ l) = (t ≡ u) ⊎ In t l

-- The task `t` is in the queue behind `n` others.
pub record Waits (t : Task) (n : ℕ) (l : List Task) : Type 0 where
  pub front : List Task
  pub back : List Task
  pub queue : l ≡ front ++ t ∷ back
  pub ahead : length front ≡ n
  pub runnable : All Runnable l

All-append : {P : Task → Type 0} {l r : List Task} → All P l → All P r → All P (l ++ r)
All-append nil b = b
All-append (cons h a) b = cons h (All-append a b)

tickle_if-fibers : (b : Bool) (s : Scheduler) → (tickle_if b s).fibers ≡ s.fibers
tickle_if-fibers true s = refl
tickle_if-fibers false s = refl

pub schedule-fibers :
    (t : Task) (s : Scheduler)
    → (schedule t s).fibers ≡ (if is_runnable t then s.fibers ++ t ∷ [] else s.fibers)
unfolding schedule schedule_no_lock
schedule-fibers t s = ground (arith, tickle_if-fibers (is_empty s.fibers))

pub schedule-Runnable :
    (t : Task) (s : Scheduler) → All Runnable s.fibers → All Runnable (schedule t s).fibers
schedule-Runnable t s a = elim (Bool-cases (is_runnable t)) [
  | inl h ↦ rw (schedule-fibers, h) (All-append a (cons h nil))
  | inr h ↦ rw (schedule-fibers, h) a
]

schedule-Waits :
    (u : Task) (s : Scheduler) (t : Task) (n : ℕ)
    → Waits t n s.fibers
    → Waits t n (schedule u s).fibers
schedule-Waits u s t n w = elim (Bool-cases (is_runnable u)) [
  | inl h ↦ record {
    front = w.front;
    back = w.back ++ u ∷ [];
    queue = rw (schedule-fibers, h, w.queue) (append_assoc w.front (t ∷ w.back) (u ∷ []));
    ahead = w.ahead;
    runnable = schedule-Runnable u s w.runnable;
  }
  | inr h ↦ record {
    front = w.front;
    back = w.back;
    queue = rw (schedule-fibers, h) w.queue;
    ahead = w.ahead;
    runnable = schedule-Runnable u s w.runnable;
  }
]

-- One worker takes the task, or one in front of it.
Advances : Task → ℕ → Picked → Type 0
Advances t n p =
    (b : Bool) × (u : Task) × (left : List Task) × (p ≡ picked b (some u) left)
    × ((u ≡ t) ⊎ ((k : ℕ) × (n ≡ suc k) × Waits t k left))

skip-Advances :
    (b : Bool) (a t : Task) (n : ℕ) (p : Picked)
    → Runnable a
    → Advances t n p
    → Advances t (suc n) (skip b a p)
unfolding Advances
skip-Advances b a t n p r (c, u, left, e, inl h) = (b || c, u, a ∷ left, ap (skip b a) e, inl h)
skip-Advances b a t n p r (c, u, left, e, inr (k, eq, w)) = (
  b || c,
  u,
  a ∷ left,
  ap (skip b a) e,
  inr (
    suc k,
    ap suc eq,
    record {
      front = a ∷ w.front;
      back = w.back;
      queue = ap (λ (l : List Task). a ∷ l) w.queue;
      ahead = ap suc w.ahead;
      runnable = cons r w.runnable;
    },
  ),
)

-- A task that any thread may run.
pub record IsOpen (t : Task) : Type 0 where
  pub anywhere : t.thread ≡ none
  pub no_fiber : t.fiber ≡ none

module _ (thread : ℕ) (states : ℕ → State) (t : Task) (o : IsOpen t) where
  pick_here :
      (back : List Task) → Runnable t → pick thread states (t ∷ back) ≡ picked false (some t) back
  unfolding pick
  pick_here back r = rw (pick, o.anywhere, r, o.no_fiber) refl

  pick-Advances :
      (front back : List Task)
      → All Runnable (front ++ t ∷ back)
      → Advances t (length front) (pick thread states (front ++ t ∷ back))
  unfolding pick Advances
  pick-Advances [] back (cons r a) = (false, t, back, pick_here back r, inl refl)
  pick-Advances (u ∷ front) back (cons r a) = elim (Bool-cases (elsewhere thread u.thread)) [
    | inl e ↦ rw (pick, e) (skip-Advances true u t (length front) _ r (pick-Advances front back a))
    | inr e ↦ elim (Bool-cases (is_running states u.fiber)) [
      | inl x ↦
          rw (pick, e, r, x)
            (skip-Advances false u t (length front) _ r (pick-Advances front back a))
      | inr x ↦
          rw (pick, e, r, x)
            (
              false,
              u,
              front ++ t ∷ back,
              refl,
              inr (
                length front,
                refl,
                record { front = front; back = back; queue = refl; ahead = refl; runnable = a },
              ),
            )
    ]
  ]

-- A callback that is scheduled for any thread and waits behind `n` other tasks is taken in every
-- course of events, whatever else is scheduled, that has more than `n` rounds of workers at the
-- queue, on whatever threads and whatever states the fibers are in.
pub taken-In :
    (t : Task) (turns : List Turn) (n : ℕ) (s : Scheduler)
    → IsOpen t
    → Waits t n s.fibers
    → n < number_of_picks turns
    → In t (taken turns s)
unfolding taken Advances
taken-In t [] n s o w h = absurd (omega arith)
taken-In t (schedules u ∷ turns) n s o w h =
    taken-In t turns n (schedule u s) o (schedule-Waits u s t n w) h
taken-In t (picks thread states ∷ turns) n s o w h =
    let (b, u, left, e, next) = advances t n thread states s o w in
    elim next [
      | inl eq ↦ rw (taken, e) (inl (sym eq))
      | inr found ↦
          let (k, eq, w') = found in
          rw (taken, e)
            (inr (
              taken-In t turns k (tickle_if b (record s { fibers = left })) o
                (subst (Waits t k) (sym (tickle_if-fibers b (record s { fibers = left }))) w')
                (omega (arith, eq, h))))
    ]
  where
    advances :
        (t : Task) (n : ℕ) (thread : ℕ) (states : ℕ → State) (s : Scheduler)
        → IsOpen t
        → Waits t n s.fibers
        → Advances t n (pick thread states s.fibers)
    advances t n thread states s o w =
        subst (λ (l : List Task). Advances t n (pick thread states l)) (sym w.queue)
          (subst (λ (k : ℕ). Advances t k (pick thread states (w.front ++ t ∷ w.back))) w.ahead
            (pick-Advances thread states t o w.front w.back
              (subst (All Runnable) w.queue w.runnable)))
