-- ===== src/Timer/Tests.antt =====
-- Runs of the timers, and the theorems at concrete inputs.
use cpp_linux_server_frame.Base.{
  ℕ, ◌≡◌, refl, true, false, [], ◌∷◌, none, some, ◌==◌, if◌then◌else◌, arith,
}
use cpp_linux_server_frame.Timer.{
  call, Timer, TimerManager, before, cancel, detect_clock_rollover, run_callback, on_timer,
}
use cpp_linux_server_frame.Timer.Laws.{IsValid, Cancelled, cancel-Cancelled}
use cpp_linux_server_frame.Timer.Expiry.{list_expired_cbs, expire, fire, fire_one, due, left}
use cpp_linux_server_frame.Timer.Collected.{Collects, list_expired_cbs-Collects}

-- Timer 1 recurs every 10 ms and is due at 4000100, timer 2 is due once at 4000200.
abbrev two_timers : ℕ → Timer
two_timers a =
    if a == 1
    then record { ms = 10; next = 4000100; recurring = true; cb = some (call 7) }
    else if a == 2
    then record { ms = 5; next = 4000200; recurring = false; cb = some (call 8) }
    else record { ms = 0; next = 0; recurring = false; cb = none }

abbrev manager : TimerManager
manager = record {
  store = two_timers;
  timers = 1 ∷ 2 ∷ [];
  tickled = false;
  previous_time = 4000000;
  front_calls = 0;
}

manager-IsValid : IsValid manager
unfolding before
manager-IsValid = record { sorted = ((refl, tt), (tt, tt)); armed = λ a n. ground arith }

-- At 4000150 timer 1 has expired.
first_expired : (list_expired_cbs 4000150 9 manager).0 ≡ some (call 7) ∷ []
unfolding list_expired_cbs detect_clock_rollover expire fire fire_one due left
first_expired = refl

condition_gone : run_callback (λ w. false) (on_timer 3 7) ≡ []
unfolding run_callback
condition_gone = refl

cancel-Cancelled_example : Cancelled manager 2 (cancel manager 2)
cancel-Cancelled_example = cancel-Cancelled manager 2 manager-IsValid

list_expired_cbs-Collects_example :
    Collects 4000150
      (detect_clock_rollover 4000150 manager).0
      manager
      (list_expired_cbs 4000150 9 manager)
list_expired_cbs-Collects_example = list_expired_cbs-Collects 4000150 9 manager manager-IsValid
