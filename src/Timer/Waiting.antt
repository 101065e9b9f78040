-- ===== src/Timer/Waiting.antt =====
-- refresh, reset, addTimer and getNextTimer.
use cpp_linux_server_frame.Base.{
  ℕ, ◌+◌, ◌-◌, ◌^◌, ◌≤◌, ◌≡◌, ◌⊎◌, inl, inr, refl, sym, ◌∙◌, Bool, true, ◌&&◌, not, List, [], ◌∷◌,
  Option, none, some, ◌==◌, if◌then◌else◌, Bool-cases, Option-cases, arith,
}
use cpp_linux_server_frame.Timer.{
  Callback, Timer, TimerManager, u64, update, keys, before, insert, found, refresh, add_locked,
  reset, add_timer, time_left, get_next_timer,
}
use cpp_linux_server_frame.Timer.Order.{
  In, Above, IsSorted, insert-IsSorted, insert-In_self, insert-In, In→found,
}
use cpp_linux_server_frame.Timer.Laws.{
  IsValid, update-IsSorted, armed-update, moved-IsSorted, moved-armed,
}

some-ne-none : {f : Callback} → some f ≡ none → ⊥
some-ne-none h = cc

armed_found :
    (m : TimerManager) (a : ℕ) (f : Callback)
    → IsValid m
    → (m.store a).cb ≡ some f
    → found (keys m.store) a m.timers ≡ true
armed_found m a f v e =
    In→found (keys m.store) a m.timers (v.armed a (λ n. some-ne-none (sym e ∙ n)))

refresh-IsValid : (now : ℕ) (m : TimerManager) (a : ℕ) → IsValid m → IsValid (refresh now m a).1
unfolding refresh
refresh-IsValid now m a v = elim (Option-cases (m.store a).cb) [
  | inl e ↦ rw (refresh, e) v
  | inr (f, e) ↦
      let t : Timer = record (m.store a) { next = u64 (now + (m.store a).ms) } in
      rw (refresh, e, armed_found m a f v e)
        (record { sorted = moved-IsSorted m a t v; armed = moved-armed m a t v })
]

reset-IsValid :
    (now ms : ℕ) (from_now : Bool) (m : TimerManager) (a : ℕ)
    → IsValid m
    → IsValid (reset now ms from_now m a).1
unfolding reset add_locked
reset-IsValid now ms from_now m a v = elim (Bool-cases (ms == (m.store a).ms && not from_now)) [
  | inl h ↦ rw (reset, h) v
  | inr h ↦ elim (Option-cases (m.store a).cb) [
    | inl e ↦ rw (reset, h, e) v
    | inr (f, e) ↦
        let t : Timer = record (m.store a) {
          next =
              if from_now
              then u64 (now + ms)
              else u64 ((m.store a).next + (2 ^ 64 - (m.store a).ms) + ms);
          ms = ms;
        } in
        rw (reset, h, e, armed_found m a f v e)
          (record { sorted = moved-IsSorted m a t v; armed = moved-armed m a t v })
  ]
]

add_timer-IsValid :
    (now a ms : ℕ) (cb : Option Callback) (recurring : Bool) (m : TimerManager)
    → (In a m.timers → ⊥)
    → IsValid m
    → IsValid (add_timer now a ms cb recurring m)
unfolding add_timer add_locked
add_timer-IsValid now a ms cb recurring m fresh v =
    let t : Timer = record { ms = ms; next = u64 (now + ms); recurring = recurring; cb = cb } in
    record {
      sorted =
          insert-IsSorted (keys (update m.store a t)) a m.timers
            (update-IsSorted m.store a t m.timers fresh v.sorted);
      armed =
          armed-update m.store a t m.timers (insert (keys (update m.store a t)) a m.timers) v.armed
            (λ _. insert-In_self (keys (update m.store a t)) a m.timers)
            (λ b _ i. insert-In (keys (update m.store a t)) a b m.timers i);
    }

-- On a valid TimerManager, whose set is strictly in the order of the comparator and holds every
-- timer with a callback, refresh, reset and addTimer of a timer that is not in the set leave a
-- valid one.
pub operations-IsValid :
    (now a ms : ℕ) (cb : Option Callback) (flag : Bool) (m : TimerManager)
    → IsValid m
    → IsValid (refresh now m a).1
      × IsValid (reset now ms flag m a).1
      × ((In a m.timers → ⊥) → IsValid (add_timer now a ms cb flag m))
operations-IsValid now a ms cb flag m v = (
  refresh-IsValid now m a v,
  reset-IsValid now ms flag m a v,
  λ fresh. add_timer-IsValid now a ms cb flag m fresh v,
)

before→le : (key : ℕ → ℕ) (a b : ℕ) → before key a b ≡ true → key a ≤ key b
unfolding before
before→le key a b h = ground arith

pub Above-le : (key : ℕ → ℕ) (a b : ℕ) (l : List ℕ) → Above key a l → In b l → key a ≤ key b
Above-le key a b [] h i = elim i [ ]
Above-le key a b (c ∷ l) h (inl e) = rw e (before→le key a c h.0)
Above-le key a b (c ∷ l) h (inr i) = Above-le key a b l h.1 i

-- The earliest timer is the first.
pub first-le :
    (key : ℕ → ℕ) (a b : ℕ) (l : List ℕ) → IsSorted key (a ∷ l) → In b (a ∷ l) → key a ≤ key b
first-le key a b l s (inl e) = rw e (omega arith)
first-le key a b l s (inr i) = Above-le key a b l s.0 i

-- What getNextTimer says of a list of timers in order.
NextOf : (ℕ → Timer) → ℕ → List ℕ → ℕ → Type 0
NextOf store now l t =
    ((b : ℕ) → In b l → t ≤ (store b).next - now)
    × ((l ≡ []) ⊎ ((a : ℕ) × In a l × (t ≡ (store a).next - now)))

time_left-NextOf :
    (store : ℕ → Timer) (now : ℕ) (l : List ℕ)
    → IsSorted (keys store) l
    → NextOf store now l (time_left store now l)
unfolding time_left NextOf
time_left-NextOf store now [] s = ((λ b i. elim i [ ]), inl refl)
time_left-NextOf store now (a ∷ l) s =
    ((λ b i. ground (arith, first-le (keys store) a b l s i)), inr (a, inl refl, ground arith))

-- On a valid TimerManager, getNextTimer returns at most the time left to any timer of the set,
-- and it is the time left to one of them unless the set is empty.
pub get_next_timer-le :
    (now : ℕ) (m : TimerManager)
    → IsValid m
    → ((b : ℕ) → In b m.timers → (get_next_timer now m).0 ≤ (m.store b).next - now)
      × ((m.timers ≡ [])
          ⊎ ((a : ℕ) × In a m.timers × ((get_next_timer now m).0 ≡ (m.store a).next - now)))
unfolding get_next_timer NextOf
get_next_timer-le now m v = time_left-NextOf m.store now m.timers v.sorted
