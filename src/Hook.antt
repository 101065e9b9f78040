-- ===== src/Hook.antt =====
-- The hooks of yuan/hook.cc: do_io, which gives the calls on sockets their blocking form over
-- non-blocking sockets. The system's functions are lists of their answers. What happens between a
-- YieldToHold and the next run of the fiber is an argument: what others do meanwhile, and whether
-- the callback of the call's timer has run.
pub mod Waiting
pub mod Ends
pub mod Flags
pub mod Sleep
pub mod Sockets
mod Wakes
mod Tests
use cpp_linux_server_frame.Base.{
  ℕ, ◌-◌, ◌^◌, Bool, true, false, ◌&&◌, ◌||◌, not, List, [], ◌∷◌, Option, none, some, ◌==◌,
  if◌then◌else◌,
}
use cpp_linux_server_frame.FdManager.{FdCtx, get_timeout}
use cpp_linux_server_frame.IoManager.{
  Event, Mask, assertion, out_of_bounds, done, Checked, IoManager, Op, and_then, write_event,
}
use cpp_linux_server_frame.IoManager.Add.{Caller, add_event}
use cpp_linux_server_frame.IoManager.Remove.{cancel_event}
use cpp_linux_server_frame.Timer.{TimerManager, end_erased, returned, add_condition_timer, cancel}

-- What a call of the system returns: a number, or -1 with an errno.
pub data Sys : Type 0 where
  gives fails : ℕ → Sys

-- The numbers of errno on Linux, where EWOULDBLOCK is EAGAIN.
abbrev pub eintr : ℕ
eintr = 4

abbrev pub eagain : ℕ
eagain = 11

abbrev pub ebadf : ℕ
ebadf = 9

abbrev pub einprogress : ℕ
einprogress = 115

abbrev pub no_timeout : ℕ
no_timeout = 2 ^ 64 - 1

-- The two halves of an IOManager, which is a scheduler with events and a TimerManager.
pub record World : Type 0 where
  pub io : IoManager
  pub timers : TimerManager

-- What a call takes from its surroundings: the kernel, the clock, the address that `new` returns for
-- a timer, the calling thread, and the names of the timer's callback and of `tinfo`.
pub record Env : Type 0 where
  pub epoll_ctl : Op → ℕ → Mask → Bool
  pub now : World → ℕ
  pub address : World → ℕ
  pub caller : Caller
  pub timeout_cb : ℕ
  pub tinfo : ℕ

-- From a YieldToHold to the next run of the fiber.
pub record Round : Type 0 where
  pub meanwhile : World → World
  pub timed_out : Bool

-- How a call ends: with an answer of the system; -1 with ETIMEDOUT; -1 where addEvent fails, with
-- the errno of epoll_ctl; in a failed assertion or an index out of bounds. `starved` is a call that
-- still waits when the answers or the rounds are used up.
pub data Return : Type 0 where
  returns : Sys → Return
  times_out unwatched aborts starved : Return

-- The loop that calls `fun` again after EINTR, with the answers that are left.
unfoldable pub uninterrupted : List Sys → Option (Sys × List Sys)
uninterrupted [] = none
uninterrupted (gives n ∷ l) = some (gives n, l)
uninterrupted (fails e ∷ l) =
    let again = uninterrupted l in if e == eintr then again else some (fails e, l)

abbrev pub has_timer : Option ℕ → Bool
has_timer none = false
has_timer (some a) = true

-- timer->cancel(), if there is a timer
unfoldable pub disarm : Option ℕ → World → Option World
disarm none w = some w
disarm (some a) w = elim (cancel w.timers a) [
  | end_erased ↦ none
  | returned r ↦ some (record w { timers = r.1 })
]

-- The callback of the timer; `cancelled` is whether t->cancelled is set. The descriptor and the event
-- that the lambda has captured are arguments: a timer keeps only the callback's number.
unfoldable pub on_timeout :
    (Op → ℕ → Mask → Bool) → ℕ → Event → Bool → World → Checked (Bool × World)
on_timeout epoll_ctl fd event cancelled w =
    if cancelled
    then done (true, w)
    else and_then (cancel_event epoll_ctl w.io fd event) (λ r. done (true, record w { io = r.1 }))

-- What addEvent leads to: the fiber yields, -1, or the end of the process.
pub data Watched : Type 0 where
  asleep : Option ℕ → World → Watched
  refused : World → Watched
  broken : Watched

module _ (env : Env) (fd : ℕ) (event : Event) (timeout : ℕ) where
  -- addConditionTimer, where there is a timeout
  unfoldable pub arm : World → Option ℕ × World
  arm w = if timeout == no_timeout then (none, w) else (
    some (env.address w),
    record w {
      timers =
          add_condition_timer (env.now w) (env.address w) timeout env.timeout_cb env.tinfo false
            w.timers;
    },
  )

  unfoldable pub register : Option ℕ → World → Watched
  register timer w = elim (add_event env.epoll_ctl w.io fd event none env.caller) [
    | assertion ↦ broken
    | out_of_bounds ↦ broken
    | done r ↦
        if r.0
        then asleep timer (record w { io = r.1 })
        else elim (disarm timer (record w { io = r.1 })) [ none ↦ broken | some w' ↦ refused w' ]
  ]

  -- From EAGAIN to YieldToHold.
  unfoldable pub watch : World → Watched
  watch w = let armed = arm w in register armed.0 armed.1

  -- After YieldToHold: the call times out, or goes to retry.
  unfoldable pub resume :
      (List Sys → World → Return × World) → Round → List Sys → Option ℕ → World → Return × World
  resume retry round answers timer w = elim (disarm timer (round.meanwhile w)) [
    | none ↦ (aborts, w)
    | some w' ↦ if round.timed_out && has_timer timer then (times_out, w') else retry answers w'
  ]

  -- One pass from `retry:` on; `wake` is what comes after YieldToHold.
  unfoldable pub attempt :
      (List Sys → Option ℕ → World → Return × World) → List Sys → World → Return × World
  attempt wake answers w = elim (uninterrupted answers) [
    | none ↦ (starved, w)
    | some (gives n, left) ↦ (returns (gives n), w)
    | some (fails e, left) ↦
        if e == eagain
        then elim (watch w) [
          | asleep timer w' ↦ wake left timer w'
          | refused w' ↦ (unwatched, w')
          | broken ↦ (aborts, w)
        ]
        else (returns (fails e), w)
  ]

  unfoldable pub attempts : List Round → List Sys → World → Return × World
  attempts [] = attempt (λ left timer w. (starved, w))
  attempts (round ∷ rounds) = attempt (resume (attempts rounds) round)

-- A call that goes to the system as it is.
abbrev pub passed_on : List Sys → World → Return × World
passed_on [] w = (starved, w)
passed_on (s ∷ l) w = (returns s, w)

-- do_io; `fd_ctx` is what FdMgr's get returns, and the last tag whether timeout_so is SO_RCVTIMEO.
unfoldable pub do_io :
    Env → Bool → Option FdCtx → ℕ → Event → Bool → List Round → List Sys → World → Return × World
do_io env hook_enable none fd event recv rounds answers w = passed_on answers w
do_io env hook_enable (some c) fd event recv rounds answers w =
    if not hook_enable
    then passed_on answers w
    else if c.is_closed
    then (returns (fails ebadf), w)
    else if not c.is_socket || c.user_non_block
    then passed_on answers w
    else attempts env fd event (get_timeout c recv) rounds answers w

-- The end of connect_with_timeout: the answer of getsockopt and the error that it reports.
unfoldable pub so_error : Sys → ℕ → World → Return × World
so_error (fails e) error w = (returns (fails e), w)
so_error (gives n) error w = (returns (if error == 0 then gives 0 else fails error), w)

-- connect_with_timeout from EINPROGRESS on
unfoldable pub await_connect : Env → ℕ → ℕ → Round → Sys → ℕ → World → Return × World
await_connect env fd timeout_ms round option error w =
    elim (watch env fd write_event timeout_ms w) [
      | asleep timer w' ↦
          resume env fd write_event timeout_ms (λ left w''. so_error option error w'') round []
            timer w'
      | refused w' ↦ so_error option error w'
      | broken ↦ (aborts, w)
    ]

-- The end of connect_with_timeout on a socket, from the answer of connect_f on.
unfoldable pub after_connect : Env → ℕ → ℕ → Round → Sys → Sys → ℕ → World → Return × World
after_connect env fd timeout_ms round (gives n) option error w = (returns (gives n), w)
after_connect env fd timeout_ms round (fails e) option error w =
    if e == einprogress
    then await_connect env fd timeout_ms round option error w
    else (returns (fails e), w)

-- connect_with_timeout
unfoldable pub connect_with_timeout :
    Env → Bool → Option FdCtx → ℕ → ℕ → Round → Sys → Sys → ℕ → World → Return × World
connect_with_timeout env hook_enable none fd timeout_ms round answer option error w =
    (returns (if hook_enable then fails ebadf else answer), w)
connect_with_timeout env hook_enable (some c) fd timeout_ms round answer option error w =
    if not hook_enable
    then (returns answer, w)
    else if c.is_closed
    then (returns (fails ebadf), w)
    else if not c.is_socket || c.user_non_block
    then (returns answer, w)
    else after_connect env fd timeout_ms round answer option error w
