-- ===== src/Hook/Sleep.antt =====
-- sleep, usleep and nanosleep of yuan/hook.cc: a timer that schedules the calling fiber, which
-- yields. useconds_t and unsigned int have 32 bits.
use cpp_linux_server_frame.Base.{
  ℕ, ◌+◌, ◌-◌, ◌*◌, ◌/◌, ◌%◌, ◌^◌, ◌<◌, ◌≡◌, ◌↔◌, refl, ap, sym, subst, ◌∙◌, Bool, true, false,
  some, ltb, if◌then◌else◌, arith,
}
use cpp_linux_server_frame.Timer.{call, Timer, u64, add_timer, add_locked, update, keys}
use cpp_linux_server_frame.Timer.Order.{In, insert-In_self}
use cpp_linux_server_frame.Timer.Laws.{IsValid, update_self}
use cpp_linux_server_frame.Timer.Waiting.{operations-IsValid}
use cpp_linux_server_frame.Hook.{World, Env}

-- The three functions, with the argument that the program gives.
pub data Sleeps : Type 0 where
  -- sleep(seconds)
  in_seconds : ℕ → Sleeps
  -- usleep(usec)
  in_microseconds : ℕ → Sleeps
  -- nanosleep(req), with tv_sec and tv_nsec
  in_timespec : ℕ → ℕ → Sleeps

-- An int as the uint64_t that addTimer takes.
abbrev sign_extended : ℕ → ℕ
sign_extended n = if ltb n (2 ^ 31) then n else n + (2 ^ 64 - 2 ^ 32)

-- The milliseconds that they hand to addTimer.
unfoldable pub sleep_ms : Sleeps → ℕ
sleep_ms (in_seconds seconds) = seconds * 1000 % 2 ^ 32
sleep_ms (in_microseconds usec) = usec / 1000
sleep_ms (in_timespec tv_sec tv_nsec) =
    sign_extended ((tv_sec * 1000 + tv_nsec / 1000 / 1000) % 2 ^ 32)

-- The functions up to YieldToHold; true is that the calling fiber yields, false that the system's
-- function is called. `schedule_fiber` is the name of the bound call of schedule.
unfoldable pub go_to_sleep : Env → ℕ → Bool → Sleeps → World → Bool × World
go_to_sleep env schedule_fiber hook_enable s w =
    if hook_enable
    then (
      true,
      record w {
        timers =
            add_timer (env.now w) (env.address w) (sleep_ms s) (some (call schedule_fiber)) false
              w.timers;
      },
    )
    else (false, w)

-- The time that the program asks for, in milliseconds, cut to whole ones.
abbrev pub asked : Sleeps → ℕ
asked (in_seconds seconds) = seconds * 1000
asked (in_microseconds usec) = usec / 1000
asked (in_timespec tv_sec tv_nsec) = tv_sec * 1000 + tv_nsec / 1000000

-- Arguments that the types admit, with tv_nsec below 10 ^ 9.
abbrev pub Fits : Sleeps → Type 0
Fits (in_seconds seconds) = seconds < 2 ^ 32
Fits (in_microseconds usec) = usec < 2 ^ 32
Fits (in_timespec tv_sec tv_nsec) = (tv_sec * 1000 + 1000 < 2 ^ 63) × (tv_nsec < 1000000000)

-- The largest time for which the functions are right.
abbrev pub limit : Sleeps → ℕ
limit (in_seconds seconds) = 2 ^ 32
limit (in_microseconds usec) = 2 ^ 32
limit (in_timespec tv_sec tv_nsec) = 2 ^ 31

exact : (s : Sleeps) → Fits s → (sleep_ms s ≡ asked s) ↔ (asked s < limit s)
unfolding sleep_ms
exact (in_seconds n) h = ((λ e. omega arith), (λ e. omega arith))
exact (in_microseconds n) h = ((λ e. omega arith), (λ e. omega arith))
exact (in_timespec n m) h = ((λ e. ground arith), (λ e. ground arith))

below : (s : Sleeps) → Fits s → (sleep_ms s < 2 ^ 64) × (asked s < 2 ^ 64)
unfolding sleep_ms
below (in_seconds n) h = (omega arith, omega arith)
below (in_microseconds n) h = (omega arith, omega arith)
below (in_timespec n m) h = (ground arith, omega arith)

same_due : (now a b : ℕ) → a < 2 ^ 64 → b < 2 ^ 64 → u64 (now + a) ≡ u64 (now + b) → a ≡ b
same_due now a b h k e = omega arith

next_due :
    (now ms : ℕ) (s : Sleeps)
    → Fits s
    → ms ≡ sleep_ms s
    → (u64 (now + ms) ≡ u64 (now + asked s)) ↔ (asked s < limit s)
next_due now ms s h e = (
  λ d. (exact s h).0 (sym e ∙ same_due now ms (asked s) (omega (arith, below s h)) (below s h).1 d),
  λ lt. ap (λ (t : ℕ). u64 (now + t)) (e ∙ (exact s h).1 lt),
)

-- The timer of a sleep.
abbrev slept : Env → ℕ → Sleeps → World → Timer
slept env schedule_fiber s w = record {
  ms = sleep_ms s;
  next = u64 (env.now w + sleep_ms s);
  recurring = false;
  cb = some (call schedule_fiber);
}

-- A sleep that is set.
pub record Sleeping (env : Env) (schedule_fiber : ℕ) (s : Sleeps) (w : World) (r : Bool × World)
    : Type 0 where
  pub yields : r.0 ≡ true
  pub valid : IsValid r.1.timers
  pub waits : In (env.address w) r.1.timers.timers
  pub callback : (r.1.timers.store (env.address w)).cb ≡ some (call schedule_fiber)
  -- The timer is due when the time is over exactly if the time is below the limit.
  pub due :
      ((r.1.timers.store (env.address w)).next ≡ u64 (env.now w + asked s)) ↔ (asked s < limit s)

-- On a valid TimerManager, a hooked sleep yields with a timer in the set that schedules the fiber.
-- It is due after the time that the program asks for exactly if this is below 2 ^ 32 milliseconds
-- for sleep and usleep, and below 2 ^ 31 for nanosleep.
pub go_to_sleep-Sleeping :
    (env : Env) (schedule_fiber : ℕ) (s : Sleeps) (w : World)
    → IsValid w.timers
    → (In (env.address w) w.timers.timers → ⊥)
    → Fits s
    → Sleeping env schedule_fiber s w (go_to_sleep env schedule_fiber true s w)
unfolding go_to_sleep add_timer add_locked
go_to_sleep-Sleeping env schedule_fiber s w v fresh fits = record {
  yields = refl;
  valid =
      (operations-IsValid (env.now w) (env.address w) (sleep_ms s) (some (call schedule_fiber))
          false w.timers v).2
        fresh;
  waits =
      insert-In_self (keys (update w.timers.store (env.address w) (slept env schedule_fiber s w)))
        (env.address w) w.timers.timers;
  callback = ground arith;
  due =
      subst (λ (t : Timer). (t.next ≡ u64 (env.now w + asked s)) ↔ (asked s < limit s))
        (sym (update_self w.timers.store (env.address w) (slept env schedule_fiber s w)))
        (next_due (env.now w) (sleep_ms s) s fits refl);
}
