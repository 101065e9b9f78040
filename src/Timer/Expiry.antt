-- ===== src/Timer/Expiry.antt =====
-- TimerManager::listExpiredCbs.
use cpp_linux_server_frame.Base.{
  ℕ, ◌+◌, Bool, true, false, ◌&&◌, not, List, [], ◌∷◌, Option, none, ltb, if◌then◌else◌,
}
use cpp_linux_server_frame.Timer.{
  Callback, Timer, TimerManager, u64, update, keys, insert, detect_clock_rollover,
}

-- `now_timer < timer` in the order of the set, where now_timer expires at `now` and stands at the
-- address `probe`.
abbrev pub after_now : (ℕ → ℕ) → ℕ → ℕ → ℕ → Bool
after_now key now probe a =
    if ltb now (key a) then true else if ltb (key a) now then false else ltb probe a

-- The timers in front of m_timers.upper_bound(now_timer), and those from there on.
unfoldable pub due : (ℕ → ℕ) → ℕ → ℕ → List ℕ → List ℕ
due key now probe [] = []
due key now probe (a ∷ l) = if after_now key now probe a then [] else a ∷ due key now probe l

unfoldable pub left : (ℕ → ℕ) → ℕ → ℕ → List ℕ → List ℕ
left key now probe [] = []
left key now probe (a ∷ l) = if after_now key now probe a then a ∷ l else left key now probe l

-- The loop over `expired`: the callbacks, the objects and the set.
pub record Fired : Type 0 where
  pub cbs : List (Option Callback)
  pub store : ℕ → Timer
  pub timers : List ℕ

-- One timer: it is put back if it recurs, else it loses its callback.
unfoldable pub fire_one : ℕ → (ℕ → Timer) → List ℕ → ℕ → (ℕ → Timer) × List ℕ
fire_one now store timers a =
    let again = update store a (record (store a) { next = u64 (now + (store a).ms) }) in
    if (store a).recurring
    then (again, insert (keys again) a timers)
    else (update store a (record (store a) { cb = none }), timers)

unfoldable pub fire : ℕ → List ℕ → (ℕ → Timer) → List ℕ → Fired
fire now [] store timers = record { cbs = []; store = store; timers = timers }
fire now (a ∷ expired) store timers =
    let (store', timers') = fire_one now store timers a in
    let rest = fire now expired store' timers' in record rest { cbs = (store a).cb ∷ rest.cbs }

abbrev pub is_empty : List ℕ → Bool
is_empty [] = true
is_empty (a ∷ l) = false

abbrev pub first_is_later : (ℕ → Timer) → ℕ → List ℕ → Bool
first_is_later store now [] = true
first_is_later store now (a ∷ l) = ltb now (store a).next

-- What follows the two early returns; a clock that has been set back expires all timers.
unfoldable pub expire : ℕ → ℕ → Bool → TimerManager → List (Option Callback) × TimerManager
expire now probe rollover m =
    let expired = if rollover then m.timers else due (keys m.store) now probe m.timers in
    let remaining = if rollover then [] else left (keys m.store) now probe m.timers in
    let fired = fire now expired m.store remaining in
    (fired.cbs, record m { store = fired.store; timers = fired.timers })

unfoldable pub list_expired_cbs : ℕ → ℕ → TimerManager → List (Option Callback) × TimerManager
list_expired_cbs now probe m =
    let (rollover, m') = detect_clock_rollover now m in
    if is_empty m.timers
    then ([], m)
    else if not rollover && first_is_later m.store now m.timers
    then ([], m')
    else expire now probe rollover m'
