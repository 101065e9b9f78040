-- ===== src/Timer.antt =====
-- Timer and TimerManager (yuan/timer.h, yuan/timer.cc). A timer is an object in a store and is named
-- by its address. The std::set of timers is the list of addresses in the order of the comparator,
-- which reads the store. The clock is the argument `now`; times are uint64_t milliseconds and wrap.
pub mod Order
pub mod Laws
pub mod Expiry
pub mod Due
pub mod Waiting
pub mod Collected
mod Tests
use cpp_linux_server_frame.Base.{
  ℕ, ◌+◌, ◌-◌, ◌*◌, ◌%◌, ◌^◌, Bool, true, false, ◌&&◌, ◌||◌, not, List, [], ◌∷◌, ◌++◌, Option, none,
  some, ltb, ◌==◌, if◌then◌else◌,
}

-- The callback of a timer: the one that addTimer is given, or onTimer with the weak pointer of
-- addConditionTimer bound to it.
pub data Callback : Type 0 where
  call : ℕ → Callback
  on_timer : (weak_cond cb : ℕ) → Callback

-- What runs when the callback is called; `locks` is whether a weak pointer still has its object.
unfoldable pub run_callback : (ℕ → Bool) → Callback → List ℕ
run_callback locks (call cb) = cb ∷ []
run_callback locks (on_timer weak_cond cb) = if locks weak_cond then cb ∷ [] else []

pub record Timer : Type 0 where
  pub ms : ℕ
  pub next : ℕ
  pub recurring : Bool
  pub cb : Option Callback

pub record TimerManager : Type 0 where
  pub store : ℕ → Timer
  pub timers : List ℕ
  pub tickled : Bool
  pub previous_time : ℕ
  -- How often onTimerInsertedAtFront has been called.
  pub front_calls : ℕ

abbrev pub u64 : ℕ → ℕ
u64 n = n % 2 ^ 64

abbrev pub update : (ℕ → Timer) → ℕ → Timer → ℕ → Timer
update store a t b = if a == b then t else store b

abbrev pub keys : (ℕ → Timer) → ℕ → ℕ
keys store a = (store a).next

-- Timer::Comparator on pointers that are not null.
unfoldable pub before : (ℕ → ℕ) → ℕ → ℕ → Bool
before key lhs rhs =
    if ltb (key lhs) (key rhs) then true else if ltb (key rhs) (key lhs) then false else ltb lhs rhs

-- Timer::Comparator::operator()
unfoldable pub comparator : (ℕ → ℕ) → Option ℕ → Option ℕ → Bool
comparator key none rhs = true
comparator key (some lhs) none = false
comparator key (some lhs) (some rhs) = before key lhs rhs

abbrev pub same_place : (ℕ → ℕ) → ℕ → ℕ → Bool
same_place key a b = not (before key a b) && not (before key b a)

-- m_timers.insert, m_timers.find and m_timers.erase
unfoldable pub insert : (ℕ → ℕ) → ℕ → List ℕ → List ℕ
insert key a [] = a ∷ []
insert key a (b ∷ l) =
    if before key a b then a ∷ b ∷ l else if before key b a then b ∷ insert key a l else b ∷ l

unfoldable pub found : (ℕ → ℕ) → ℕ → List ℕ → Bool
found key a [] = false
found key a (b ∷ l) = same_place key b a || found key a l

unfoldable pub erase : (ℕ → ℕ) → ℕ → List ℕ → List ℕ
erase key a [] = []
erase key a (b ∷ l) = if same_place key b a then l else b ∷ erase key a l

-- `end_erased` is an iterator past the end that is erased.
pub data Outcome (A : Type 0) : Type 0 where
  returned : A → Outcome A
  end_erased : Outcome A

abbrev pub stored : TimerManager → ℕ → Timer → TimerManager
stored m a t = record m { store = update m.store a t }

-- Timer::cancel
unfoldable pub cancel : TimerManager → ℕ → Outcome (Bool × TimerManager)
cancel m a = elim (m.store a).cb [
  | none ↦ returned (false, m)
  | some f ↦
      if found (keys m.store) a m.timers
      then returned (
        true,
        record m {
          store = update m.store a (record (m.store a) { cb = none });
          timers = erase (keys m.store) a m.timers;
        },
      )
      else end_erased
]

-- Timer::refresh
unfoldable pub refresh : ℕ → TimerManager → ℕ → Bool × TimerManager
refresh now m a = elim (m.store a).cb [
  | none ↦ (false, m)
  | some f ↦
      let store = update m.store a (record (m.store a) { next = u64 (now + (m.store a).ms) }) in
      if found (keys m.store) a m.timers
      then (
        true,
        record m {
          store = store;
          timers = insert (keys store) a (erase (keys m.store) a m.timers);
        },
      )
      else (false, m)
]

abbrev pub is_head : ℕ → List ℕ → Bool
is_head a [] = false
is_head a (b ∷ l) = b == a

-- TimerManager::addTimer(timer, write_lock)
unfoldable pub add_locked : TimerManager → ℕ → TimerManager
add_locked m a =
    let timers = insert (keys m.store) a m.timers in
    let at_front = is_head a timers && not m.tickled in
    record m {
      timers = timers;
      tickled = m.tickled || at_front;
      front_calls = if at_front then m.front_calls + 1 else m.front_calls;
    }

-- Timer::reset
unfoldable pub reset : ℕ → ℕ → Bool → TimerManager → ℕ → Bool × TimerManager
reset now ms from_now m a =
    let t = m.store a in
    let next = if from_now then u64 (now + ms) else u64 (t.next + (2 ^ 64 - t.ms) + ms) in
    if ms == t.ms && not from_now then (true, m) else elim t.cb [
      | none ↦ (false, m)
      | some f ↦
          if found (keys m.store) a m.timers
          then (
            true,
            add_locked
                (record m {
                  store = update m.store a (record t { next = next; ms = ms });
                  timers = erase (keys m.store) a m.timers;
                })
                a,
          )
          else (false, m)
    ]

-- addTimer; `a` is the address that `new` returns.
unfoldable pub add_timer : ℕ → ℕ → ℕ → Option Callback → Bool → TimerManager → TimerManager
add_timer now a ms cb recurring m =
    add_locked
      (stored m a (record { ms = ms; next = u64 (now + ms); recurring = recurring; cb = cb })) a

unfoldable pub add_condition_timer : ℕ → ℕ → ℕ → ℕ → ℕ → Bool → TimerManager → TimerManager
add_condition_timer now a ms cb weak_cond recurring m =
    add_timer now a ms (some (on_timer weak_cond cb)) recurring m

-- getNextTimer
unfoldable pub time_left : (ℕ → Timer) → ℕ → List ℕ → ℕ
time_left store now [] = 2 ^ 64 - 1
time_left store now (a ∷ l) = if ltb (store a).next now then 0 else (store a).next - now

unfoldable pub get_next_timer : ℕ → TimerManager → ℕ × TimerManager
get_next_timer now m = (time_left m.store now m.timers, record m { tickled = false })

unfoldable pub detect_clock_rollover : ℕ → TimerManager → Bool × TimerManager
detect_clock_rollover now m =
    (ltb now (u64 (m.previous_time + (2 ^ 64 - 60 * 60 * 1000))), record m { previous_time = now })

unfoldable pub has_timer : TimerManager → Bool
has_timer m = elim m.timers [ [] ↦ false | a ∷ l ↦ true ]
