-- ===== src/Scheduler/System/Workers.antt =====
-- A list of workers around one of them.
use cpp_linux_server_frame.Base.{
  ℕ, ◌+◌, ◌^◌, ◌≤◌, ◌<◌, ◌≡◌, List, [], ◌∷◌, ◌++◌, length, length-append, arith,
}
use cpp_linux_server_frame.Scheduler.{Scheduler}
use cpp_linux_server_frame.Scheduler.Run.{
  Phase, looking, took, without_task, running, swapped_out, counted_down, idling, ended, aborted,
  Worker,
}
use cpp_linux_server_frame.Scheduler.System.Invariant.{
  busy, waiting, Honest, total, Each, nil, cons,
}
use cpp_linux_server_frame.Scheduler.System.Kept.{SameFlags, SameFlags-Honest}

pub total-append :
    (f : Phase → ℕ) (l r : List Worker) (w : Worker)
    → total f (l ++ w ∷ r) ≡ f w.phase + (total f l + total f r)
total-append f [] r w = omega arith
total-append f (v ∷ l) r w = omega (arith, total-append f l r w)

pub busy-le : (p : Phase) → busy p ≤ 1
busy-le (took t) = omega arith
busy-le (running b a) = omega arith
busy-le (swapped_out b a) = omega arith
busy-le looking = omega arith
busy-le without_task = omega arith
busy-le (counted_down b a) = omega arith
busy-le idling = omega arith
busy-le ended = omega arith
busy-le (aborted p) = busy-le p

pub waiting-le : (p : Phase) → waiting p ≤ 1
waiting-le (took t) = omega arith
waiting-le (running b a) = omega arith
waiting-le (swapped_out b a) = omega arith
waiting-le looking = omega arith
waiting-le without_task = omega arith
waiting-le (counted_down b a) = omega arith
waiting-le idling = omega arith
waiting-le ended = omega arith
waiting-le (aborted p) = waiting-le p

total-le : (f : Phase → ℕ) → ((p : Phase) → f p ≤ 1) → (l : List Worker) → total f l ≤ length l
total-le f h [] = omega arith
total-le f h (w ∷ l) = omega (arith, h w.phase, total-le f h l)

pub Each-append : {P : Worker → Type 0} (l r : List Worker) → Each P l → Each P r → Each P (l ++ r)
Each-append [] r nil b = b
Each-append (w ∷ l) r (cons h a) b = cons h (Each-append l r a b)

pub parts_of :
    {P : Worker → Type 0} (l r : List Worker) (w : Worker)
    → Each P (l ++ w ∷ r)
    → Each P l × P w × Each P r
parts_of [] r w (cons h a) = (nil, h, a)
parts_of (v ∷ l) r w (cons h a) = let (b, c, d) = parts_of l r w a in (cons h b, c, d)

pub all_along :
    {s s' : Scheduler} (l : List Worker) → SameFlags s s' → Each (Honest s) l → Each (Honest s') l
all_along [] f nil = nil
all_along (w ∷ l) f (cons h a) = cons (SameFlags-Honest f h) (all_along l f a)

-- The others leave room for one more worker in the counters.
pub others-lt :
    (f : Phase → ℕ) (l r : List Worker) (w : Worker)
    → ((p : Phase) → f p ≤ 1)
    → length (l ++ w ∷ r) < 2 ^ 64
    → (total f l + total f r) + 1 < 2 ^ 64
others-lt f l r w h b = omega (arith, total-le f h l, total-le f h r, length-append l (w ∷ r), b)
