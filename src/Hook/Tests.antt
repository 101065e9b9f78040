-- ===== src/Hook/Tests.antt =====
-- Runs of the hooks, and the theorems at concrete inputs.
use cpp_linux_server_frame.Base.{
  ◌≢◌, ℕ, suc, ◌+◌, ◌^◌, ◌<◌, ◌≡◌, inl, inr, refl, Bool, true, false, List, [], ◌∷◌, Option, none,
  some, set, get_elem?, if◌then◌else◌, arith,
}
use cpp_linux_server_frame.FdManager.{FdCtx, get_timeout, new_datas}
use cpp_linux_server_frame.IoManager.{
  read_event, write_event, done, run_cb, FdContext, new_fd_context, IoManager, fill,
  get_event_context,
}
use cpp_linux_server_frame.IoManager.Add.{add_event, add_at, add_to_context, new_context}
use cpp_linux_server_frame.IoManager.Invariant.{IsValid, AllSound-set, fill-AllSound}
use cpp_linux_server_frame.IoManager.Register.{from, registered}
use cpp_linux_server_frame.Timer.{
  TimerManager, add_condition_timer, add_timer, add_locked, insert, before, cancel, found, erase,
}
use cpp_linux_server_frame.Timer.Order.{In}
use cpp_linux_server_frame.Timer.Laws as Timers
use cpp_linux_server_frame.Hook.{
  gives, fails, einprogress, Return, World, Env, Round, returns, times_out, Watched, asleep,
  refused, broken, uninterrupted, disarm, arm, register, watch, resume, attempt, attempts, do_io,
  connect_with_timeout,
}
use cpp_linux_server_frame.Hook.Waiting.{Owned, IsFresh, IsQuiet}
use cpp_linux_server_frame.Hook.Ends.{Ends, do_io-Ends}
use cpp_linux_server_frame.Hook.Wakes.{Told, connect_unwatched}
use cpp_linux_server_frame.Hook.Sleep.{in_seconds, go_to_sleep, Sleeping, go_to_sleep-Sleeping}
use cpp_linux_server_frame.Hook.Sockets.{close, Closes, close-Closes}
use cpp_linux_server_frame.Hook.Flags.{
  is_nonblock, without_nonblock, minus_one, StatusFlags, is_plain, fcntl_set, fcntl_get,
}
use cpp_linux_server_frame.Hook.Flags.Laws.{Works, after_set, failed_flags, fcntl_get-fcntl_set}

-- An address beyond all of a list.
abbrev beyond : List ℕ → ℕ
beyond [] = 1
beyond (a ∷ l) = suc a + beyond l

beyond-lt : (a : ℕ) (l : List ℕ) → In a l → a < beyond l
beyond-lt a [] i = elim i [ ]
beyond-lt a (b ∷ l) (inl e) = omega arith
beyond-lt a (b ∷ l) (inr i) = omega (arith, beyond-lt a l i)

-- Fiber 3 of scheduler 7, with a kernel that accepts every epoll_ctl, or none.
abbrev env : Bool → Env
env accepts = record {
  epoll_ctl = λ op fd events. accepts;
  now = λ w. 5000;
  address = λ w. beyond w.timers.timers;
  caller = from 7 3 true;
  timeout_cb = 20;
  tinfo = 21;
}

env-IsFresh : (accepts : Bool) → IsFresh (env accepts)
env-IsFresh accepts w i =
    absurd (omega (arith, beyond-lt (beyond w.timers.timers) w.timers.timers i))

abbrev no_timers : TimerManager
no_timers = record {
  store = λ a. record { ms = 0; next = 0; recurring = false; cb = none };
  timers = [];
  tickled = false;
  previous_time = 0;
  front_calls = 0;
}

abbrev idle : World
idle = record {
  io = record { fd_contexts = fill 0 64 []; pending_event_count = 0; calls = [] };
  timers = no_timers;
}

no_timers-IsValid : Timers.IsValid no_timers
no_timers-IsValid = record { sorted = tt; armed = λ a n. absurd (n refl) }

idle-Owned : (accepts : Bool) → Owned (env accepts) none idle
idle-Owned accepts = record { valid = no_timers-IsValid; owned = λ b e. cc }

io-IsValid : IsValid idle.io
unfolding fill
io-IsValid = record {
  contexts = fill-AllSound 0 64 [] tt;
  counted = refl;
  started = omega arith;
  bounded = omega arith;
}

-- Nothing happens while the fiber sleeps, but for the timer in the second round.
abbrev awake : Round
awake = record { meanwhile = λ w. w; timed_out = false }

abbrev late : Round
late = record { meanwhile = λ w. w; timed_out = true }

abbrev socket : FdCtx
socket = record {
  is_init = true;
  is_socket = true;
  sys_non_block = true;
  user_non_block = false;
  is_closed = false;
  fd = 5;
  recv_timeout = 3000;
  send_timeout = 2000;
}

run_reads :
    (do_io
      (env true)
      true
      (some socket)
      5
      read_event
      true
      (awake ∷ [])
      (fails 4 ∷ fails 11 ∷ fails 4 ∷ gives 12 ∷ [])
      idle).0
    ≡ returns (gives 12)
unfolding do_io attempts attempt uninterrupted watch arm register resume disarm get_timeout
    add_event add_at add_to_context new_context get_event_context fill add_condition_timer add_timer
    add_locked insert cancel found erase before
run_reads = refl

run_late :
    (do_io
      (env true)
      true
      (some socket)
      5
      read_event
      true
      (late ∷ [])
      (fails 11 ∷ gives 12 ∷ [])
      idle).0
    ≡ times_out
unfolding do_io attempts attempt uninterrupted watch arm register resume disarm get_timeout
    add_event add_at add_to_context new_context get_event_context fill add_condition_timer add_timer
    add_locked insert cancel found erase before
run_late = refl

quiet : (accepts b : Bool) → IsQuiet (env accepts) (record { meanwhile = λ w. w; timed_out = b })
quiet accepts b = record { valid = λ w v. v; not_ours = λ w b e. e }

do_io-Ends_example :
    Ends
      (env true)
      5
      read_event
      (get_timeout socket true)
      (awake ∷ late ∷ [])
      (fails 11 ∷ fails 11 ∷ gives 12 ∷ [])
      (do_io
        (env true)
        true
        (some socket)
        5
        read_event
        true
        (awake ∷ late ∷ [])
        (fails 11 ∷ fails 11 ∷ gives 12 ∷ [])
        idle).0
      (do_io
        (env true)
        true
        (some socket)
        5
        read_event
        true
        (awake ∷ late ∷ [])
        (fails 11 ∷ fails 11 ∷ gives 12 ∷ [])
        idle).1
do_io-Ends_example =
    do_io-Ends (env true) socket 5 read_event true (awake ∷ late ∷ [])
      (fails 11 ∷ fails 11 ∷ gives 12 ∷ []) idle refl refl refl (env-IsFresh true)
      (quiet true false, (quiet true true, tt)) (idle-Owned true)

abbrev world_of : Watched → World
world_of (asleep t w) = w
world_of (refused w) = w
world_of broken = idle

abbrev sleeping : World
sleeping = world_of (watch (env true) 5 read_event 3000 idle)

falls_asleep : watch (env true) 5 read_event 3000 idle ≡ asleep (some 1) sleeping
unfolding watch arm register add_event add_at add_to_context new_context get_event_context fill
    add_condition_timer add_timer add_locked insert
falls_asleep = refl

refuses :
    add_event (env false).epoll_ctl idle.io 5 write_event none (from 7 3 true)
    ≡ done (false, idle.io)
unfolding add_event add_at add_to_context fill
refuses = refl

connect_unwatched_example :
    (r : Return) × (w' : World) × Told (gives 0) 0 r
    × Owned (env false) none w'
    × (connect_with_timeout
          (env false)
          true
          (some socket)
          5
          3000
          awake
          (fails einprogress)
          (gives 0)
          0
          idle
        ≡ (r, w'))
connect_unwatched_example =
    connect_unwatched (env false) socket 5 3000 0 awake (gives 0) idle idle.io refl refl refl
      (env-IsFresh false) (idle-Owned false) refuses

go_to_sleep-Sleeping_example :
    Sleeping
      (env true)
      9
      (in_seconds 5000000)
      idle
      (go_to_sleep (env true) 9 true (in_seconds 5000000) idle)
go_to_sleep-Sleeping_example =
    go_to_sleep-Sleeping (env true) 9 (in_seconds 5000000) idle no_timers-IsValid
      (env-IsFresh true idle) (omega arith)

-- Descriptor 5 is read by callback 9 of scheduler 7.
abbrev reader : FdContext
reader = registered 7 (run_cb 9) read_event (new_fd_context 5)

abbrev busy : IoManager
busy = record { fd_contexts = set (fill 0 64 []) 5 reader; pending_event_count = 1; calls = [] }

busy-IsValid : IsValid busy
unfolding fill
busy-IsValid = record {
  contexts =
      AllSound-set 0 (fill 0 64 []) 5 (new_fd_context 5) reader (fill-AllSound 0 64 [] tt) refl
        ((7, run_cb 9, refl), refl) refl;
  counted = refl;
  started = omega arith;
  bounded = omega arith;
}

abbrev table : List (Option FdCtx)
table = set new_datas 5 (some socket)

reader_there : get_elem? busy.fd_contexts 5 ≡ some reader
unfolding fill
reader_there = refl

close-Closes_example :
    Closes
      (λ fd. some true)
      busy
      reader
      5
      (close (λ fd. some true) (λ op fd events. true) true 5 (some busy) table)
close-Closes_example =
    close-Closes (λ fd. some true) (λ op fd events. true) busy table 5 socket reader busy-IsValid
      refl reader_there refl refl

-- A system that keeps O_NONBLOCK and no other flag.
abbrev shown : Bool → ℕ
shown b = if b then 2048 else 0

shown-lt : (b : Bool) → shown b < 2 ^ 32
shown-lt true = omega arith
shown-lt false = omega arith

shown_tells : (b : Bool) → is_nonblock (shown b) ≡ b
unfolding is_nonblock
shown_tells true = refl
shown_tells false = refl

shown_others : (b : Bool) → without_nonblock (shown b) ≡ 0
unfolding without_nonblock
shown_others true = refl
shown_others false = refl

is_shown : (b : Bool) → shown b ≢ minus_one
is_shown true h = omega (arith, h)
is_shown false h = omega (arith, h)

abbrev one_flag : StatusFlags Bool
one_flag = record {
  set_fl = λ s a. (true, is_nonblock a);
  get_fl = shown;
  get_fl-lt = shown-lt;
  tells = λ s a w g. shown_tells (is_nonblock a);
  others = λ s a b wa wb ga gb e. simp (shown_others);
}

one_flag-Works : (b : ℕ) → Works one_flag true b
one_flag-Works b = (refl, is_shown (is_nonblock b))

fcntl_get-fcntl_set_example :
    ((fcntl_set one_flag (some socket) 2048 true).1 ≡ true)
    × (after_set one_flag (some socket) 2048 true ≡ one_flag.get_fl (one_flag.set_fl true 2048).1)
    × ((c : FdCtx)
        → some socket ≡ some c
        → is_plain c ≡ false
        → is_nonblock (one_flag.get_fl (fcntl_set one_flag (some socket) 2048 true).2)
          ≡ c.sys_non_block)
    × ((t : Bool)
        → one_flag.get_fl t ≡ minus_one
        → fcntl_get one_flag (some socket) t ≡ failed_flags one_flag (some socket))
fcntl_get-fcntl_set_example =
    fcntl_get-fcntl_set one_flag (some socket) 2048 true (omega arith) (λ b e. one_flag-Works b)
