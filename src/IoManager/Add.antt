-- ===== src/IoManager/Add.antt =====
-- IOManager::addEvent.
use cpp_linux_server_frame.Base.{
  ℕ, ◌*◌, ◌/◌, Bool, true, false, Option, none, some, ltb, if◌then◌else◌, length, get_elem?, set,
}
use cpp_linux_server_frame.IoManager.{
  Event, Mask, has, with_event, any, Checked, assertion, out_of_bounds, done, and_then,
  EventContext, FdContext, get_event_context, put_event_context, IoManager, resize_fd_contexts,
  increment, Op, ctl_add, ctl_mod,
}

-- The thread that calls addEvent: Scheduler::GetThis(), Fiber::GetThis(), and whether this fiber
-- is in the state EXEC.
pub record Caller : Type 0 where
  pub scheduler : Option ℕ
  pub fiber : ℕ
  pub executing : Bool

-- `assert(!event_ctx.scheduler && !event_ctx.fiber && !event_ctx.cb)`
abbrev pub is_reset : EventContext → Bool
is_reset e = elim e.scheduler [
  | some s ↦ false
  | none ↦ elim e.fiber [ some f ↦ false | none ↦ elim e.cb [ some f ↦ false | none ↦ true ] ]
]

-- What addEvent stores in the event context: `cb`, else the calling fiber.
unfoldable pub new_context : Caller → Option ℕ → Checked EventContext
new_context caller (some cb) =
    done (record { scheduler = caller.scheduler; fiber = none; cb = some cb })
new_context caller none =
    if caller.executing
    then done (record { scheduler = caller.scheduler; fiber = some caller.fiber; cb = none })
    else assertion

module _ (epoll_ctl : Op → ℕ → Mask → Bool) where
  -- addEvent on the context of `fd`, from the lock of its mutex on: true is the return value 0, and
  -- false is -1.
  unfoldable pub add_to_context : Caller → Option ℕ → Event → FdContext → Checked (Bool × FdContext)
  add_to_context caller cb event c =
      if has c.events event
      then assertion
      else if epoll_ctl (if any c.events then ctl_mod else ctl_add) c.fd (with_event c.events event)
      then and_then (get_event_context c event) (λ e.
        if is_reset e
        then and_then (new_context caller cb) (λ e'.
          done (true, put_event_context (record c { events = with_event c.events event }) event e'))
        else assertion)
      else done (false, c)

  unfoldable pub add_at : IoManager → ℕ → Caller → Option ℕ → Event → Checked (Bool × IoManager)
  add_at m fd caller cb event = elim (get_elem? m.fd_contexts fd) [
    | none ↦ out_of_bounds
    | some c ↦ and_then (add_to_context caller cb event c) (λ r. done (
      r.0,
      if r.0
          then record m {
            fd_contexts = set m.fd_contexts fd r.1;
            pending_event_count = increment m.pending_event_count;
          }
          else m,
    ))
  ]

  -- `fd * 1.5` is exact, and cut to an integer.
  unfoldable pub add_event : IoManager → ℕ → Event → Option ℕ → Caller → Checked (Bool × IoManager)
  add_event m fd event cb caller =
      if ltb fd (length m.fd_contexts)
      then add_at m fd caller cb event
      else add_at (resize_fd_contexts m (fd * 3 / 2)) fd caller cb event
