-- ===== src/IoManager/Remove.antt =====
-- IOManager::delEvent, cancelEvent and cancelAll, and what idle does with a reported event.
use cpp_linux_server_frame.Base.{
  ℕ, zero, suc, Bool, true, false, ◌&&◌, ◌||◌, not, List, [], ◌++◌, Option, none, some,
  if◌then◌else◌, get_elem?, set,
}
use cpp_linux_server_frame.IoManager.{
  Event, read_event, write_event, Mask, has, without_event, any, no_events, Checked, done, and_then,
  Task, FdContext, no_context, get_event_context, put_event_context, trigger_event, IoManager,
  decrement, Op, ctl_mod, ctl_del,
}

-- The new state of a context, how often the counter is decremented, and the tasks scheduled.
pub record Effect : Type 0 where
  pub context : FdContext
  pub removed : ℕ
  pub calls : List (ℕ × Task)

abbrev pub decrements : ℕ → ℕ → ℕ
decrements zero n = n
decrements (suc k) n = decrements k (decrement n)

-- `none` is the return value false, which leaves the state as it was.
abbrev pub apply : IoManager → ℕ → Option Effect → Bool × IoManager
apply m fd none = (false, m)
apply m fd (some e) = (
  true,
  record m {
    fd_contexts = set m.fd_contexts fd e.context;
    pending_event_count = decrements e.removed m.pending_event_count;
    calls = m.calls ++ e.calls;
  },
)

abbrev pub keep : FdContext → Checked Effect
keep c = done (record { context = c; removed = 0; calls = [] })

-- triggerEvent and the decrement beside it
abbrev pub trigger : Effect → Event → Checked Effect
trigger e event =
    and_then (trigger_event e.context event)
      (λ r. done (record { context = r.0; removed = suc e.removed; calls = e.calls ++ r.1 }))

abbrev pub trigger_if : Bool → Event → Effect → Checked Effect
trigger_if b event e = if b then trigger e event else done e

abbrev pub some_effect : Checked Effect → Checked (Option Effect)
some_effect r = and_then r (λ e. done (some e))

-- How the functions below begin: fd beyond the vector is the return value false.
unfoldable pub on_context :
    (FdContext → Checked (Option Effect)) → IoManager → ℕ → Checked (Bool × IoManager)
on_context f m fd = elim (get_elem? m.fd_contexts fd) [
  | none ↦ done (false, m)
  | some c ↦ and_then (f c) (λ e. done (apply m fd e))
]

-- The events that idle takes from epoll_event: EPOLLIN and EPOLLOUT, both on EPOLLERR or EPOLLHUP.
abbrev pub real_events : Mask → Bool → Mask
real_events reported error = record {
  reads = reported.reads || error;
  writes = reported.writes || error;
}

module _ (epoll_ctl : Op → ℕ → Mask → Bool) where
  -- EPOLL_CTL_MOD while events are left, else EPOLL_CTL_DEL
  abbrev pub ctl_left : FdContext → Mask → Bool
  ctl_left c left = epoll_ctl (if any left then ctl_mod else ctl_del) c.fd left

  unfoldable pub del_from_context : Event → FdContext → Checked (Option Effect)
  del_from_context event c =
      if has c.events event
      then (if ctl_left c (without_event c.events event)
          then and_then (get_event_context c event) (λ _. done (
              some (record {
                context =
                    put_event_context (record c { events = without_event c.events event }) event
                      no_context;
                removed = 1;
                calls = [];
              })))
          else done none)
      else done none

  unfoldable pub del_event : IoManager → ℕ → Event → Checked (Bool × IoManager)
  del_event m fd event = on_context (del_from_context event) m fd

  unfoldable pub cancel_in_context : Event → FdContext → Checked (Option Effect)
  cancel_in_context event c =
      if has c.events event
      then (if ctl_left c (without_event c.events event)
          then some_effect (and_then (keep c) (λ e. trigger e event))
          else done none)
      else done none

  unfoldable pub cancel_event : IoManager → ℕ → Event → Checked (Bool × IoManager)
  cancel_event m fd event = on_context (cancel_in_context event) m fd

  -- The second test reads the events that the first trigger has left.
  unfoldable pub cancel_all_in_context : FdContext → Checked (Option Effect)
  cancel_all_in_context c =
      if any c.events
      then (if epoll_ctl ctl_del c.fd no_events
          then some_effect (
              and_then (and_then (keep c) (trigger_if (has c.events read_event) read_event))
                (λ e. trigger_if (has e.context.events write_event) write_event e))
          else done none)
      else done none

  unfoldable pub cancel_all : IoManager → ℕ → Checked (Bool × IoManager)
  cancel_all m fd = on_context cancel_all_in_context m fd

  -- idle, from the lock of fd_ctx->mutex on. `none` is a `continue`.
  unfoldable pub idle_in_context : Mask → FdContext → Checked (Option Effect)
  idle_in_context real c =
      let left : Mask = record {
        reads = c.events.reads && not real.reads;
        writes = c.events.writes && not real.writes;
      } in
      if (c.events.reads && real.reads) || (c.events.writes && real.writes)
      then (if ctl_left c left
          then some_effect (
              and_then (and_then (keep c) (trigger_if real.reads read_event))
                (trigger_if real.writes write_event))
          else done none)
      else done none

  unfoldable pub idle_event : IoManager → ℕ → Mask → Bool → Checked (Bool × IoManager)
  idle_event m fd reported error = on_context (idle_in_context (real_events reported error)) m fd
