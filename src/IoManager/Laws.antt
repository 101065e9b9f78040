-- ===== src/IoManager/Laws.antt =====
-- What addEvent, delEvent, cancelEvent, cancelAll and idle do to an IOManager.
use cpp_linux_server_frame.Base.{
  ℕ, zero, suc, ◌+◌, ◌-◌, ◌%◌, ◌^◌, ◌≤◌, ◌<◌, ◌≡◌, refl, ap, ◌∙◌, ◌⊎◌, inl, inr, Bool, true, false,
  [], ◌∷◌, Option, none, some, get_elem?, arith, length-set, Bool-cases, Option-cases,
}
use cpp_linux_server_frame.IoManager.{
  Event, no_event, read_event, write_event, Mask, Checked, done, EventContext, no_context, Task,
  run_fiber, run_cb, FdContext, trigger_event, get_event_context, IoManager, Op,
}
use cpp_linux_server_frame.IoManager.Remove.{
  Effect, decrements, apply, on_context, del_from_context, del_event, cancel_in_context,
  cancel_event, ctl_left,
}
use cpp_linux_server_frame.IoManager.Invariant.{
  armed, Slot, IsSound, count, total, IsValid, AllSound-get, AllSound-set, total-set, total-le,
}

-- A context by its parts.
abbrev pub context : Bool → Bool → EventContext → EventContext → ℕ → FdContext
context r w re we fd = record {
  read_event_context = re;
  write_event_context = we;
  fd = fd;
  events = record { reads = r; writes = w };
}

pub trigger_read :
    (w : Bool) (we : EventContext) (fd s : ℕ) (t : Task)
    → trigger_event (context true w (armed s t) we fd) read_event
      ≡ done (context false w no_context we fd, (s, t) ∷ [])
unfolding trigger_event get_event_context
trigger_read w we fd s (run_fiber f) = refl
trigger_read w we fd s (run_cb f) = refl

pub trigger_write :
    (r : Bool) (re : EventContext) (fd s : ℕ) (t : Task)
    → trigger_event (context r true re (armed s t) fd) write_event
      ≡ done (context r false re no_context fd, (s, t) ∷ [])
unfolding trigger_event get_event_context
trigger_write r re fd s (run_fiber f) = refl
trigger_write r re fd s (run_cb f) = refl

-- A context after events are taken from it.
pub record Taken (c : FdContext) (e : Effect) : Type 0 where
  pub sound : IsSound e.context
  pub same_fd : e.context.fd ≡ c.fd
  pub counted : e.removed + count e.context ≡ count c

abbrev pub Takes : FdContext → Checked (Option Effect) → Type 0
Takes c r = (r ≡ done none) ⊎ ((e : Effect) × (r ≡ done (some e)) × Taken c e)

decrements-lem : (k n : ℕ) → k ≤ n → n < 2 ^ 34 → decrements k n ≡ n - k
decrements-lem zero n h b = omega arith
decrements-lem (suc k) n h b =
    ap (decrements k) (smaller n (omega arith) b)
    ∙ decrements-lem k (n - 1) (omega arith) (omega arith)
    ∙ omega arith
  where
    smaller : (n : ℕ) → 0 < n → n < 2 ^ 34 → (n + (2 ^ 64 - 1)) % 2 ^ 64 ≡ n - 1
    smaller n p b = ground arith

-- Where the context's part takes events soundly, so does the whole member function.
pub record Answers (m : IoManager) (r : Checked (Bool × IoManager)) : Type 0 where
  pub answer : Bool
  pub after : IoManager
  pub returns : r ≡ done (answer, after)
  pub valid : IsValid after

pub on_context-Answers :
    (f : FdContext → Checked (Option Effect)) (m : IoManager) (fd : ℕ)
    → IsValid m
    → ((c : FdContext) → get_elem? m.fd_contexts fd ≡ some c → IsSound c → Takes c (f c))
    → Answers m (on_context f m fd)
unfolding on_context
on_context-Answers f m fd v takes = elim (Option-cases (get_elem? m.fd_contexts fd)) [
  | inl e ↦ record { answer = false; after = m; returns = rw (on_context, e) refl; valid = v }
  | inr (c, e) ↦ elim (takes c e (AllSound-get 0 m.fd_contexts fd c v.contexts e)) [
    | inl h ↦ record { answer = false; after = m; returns = rw (on_context, e, h) refl; valid = v }
    | inr (x, h, t) ↦ record {
      answer = true;
      after = (apply m fd (some x)).1;
      returns = rw (on_context, e, h) refl;
      valid = record {
        contexts = AllSound-set 0 m.fd_contexts fd c x.context v.contexts e t.sound t.same_fd;
        counted =
            ap (decrements x.removed) v.counted
            ∙ decrements-lem x.removed (total m.fd_contexts)
                (omega (arith, total-set m.fd_contexts fd c x.context e, t.counted))
                (omega (arith, total-le m.fd_contexts, v.bounded))
            ∙ omega (arith, total-set m.fd_contexts fd c x.context e, t.counted);
        started = omega (arith, length-set m.fd_contexts fd x.context, v.started);
        bounded = omega (arith, length-set m.fd_contexts fd x.context, v.bounded);
      };
    }
  ]
]

module _ (epoll_ctl : Op → ℕ → Mask → Bool) where
  cancel-Takes :
      (event : Event) (r w : Bool) (re we : EventContext) (fd : ℕ)
      → Slot r re
      → Slot w we
      → Takes (context r w re we fd) (cancel_in_context epoll_ctl event (context r w re we fd))
  unfolding cancel_in_context
  cancel-Takes no_event r w re we fd sr sw = inl refl
  cancel-Takes read_event false w re we fd sr sw = inl refl
  cancel-Takes write_event r false re we fd sr sw = inl refl
  cancel-Takes read_event true w re we fd (s, t, e) sw =
      elim (Bool-cases
        (ctl_left epoll_ctl (context true w re we fd) (record { reads = false; writes = w }))) [
          | inl h ↦ inr (
            record { context = context false w no_context we fd; removed = 1; calls = (s, t) ∷ [] },
            rw (h, e, trigger_read w we fd s t) refl,
            record { sound = (refl, sw); same_fd = refl; counted = omega arith },
          )
          | inr h ↦ inl (rw h refl)
        ]
  cancel-Takes write_event r true re we fd sr (s, t, e) =
      elim (Bool-cases
        (ctl_left epoll_ctl (context r true re we fd) (record { reads = r; writes = false }))) [
          | inl h ↦ inr (
            record { context = context r false re no_context fd; removed = 1; calls = (s, t) ∷ [] },
            rw (h, e, trigger_write r re fd s t) refl,
            record { sound = (sr, refl); same_fd = refl; counted = omega arith },
          )
          | inr h ↦ inl (rw h refl)
        ]

  del-Takes :
      (event : Event) (r w : Bool) (re we : EventContext) (fd : ℕ)
      → Slot r re
      → Slot w we
      → Takes (context r w re we fd) (del_from_context epoll_ctl event (context r w re we fd))
  unfolding del_from_context get_event_context
  del-Takes no_event r w re we fd sr sw = inl refl
  del-Takes read_event false w re we fd sr sw = inl refl
  del-Takes write_event r false re we fd sr sw = inl refl
  del-Takes read_event true w re we fd sr sw =
      elim (Bool-cases
        (ctl_left epoll_ctl (context true w re we fd) (record { reads = false; writes = w }))) [
          | inl h ↦ inr (
            record { context = context false w no_context we fd; removed = 1; calls = [] },
            rw h refl,
            record { sound = (refl, sw); same_fd = refl; counted = omega arith },
          )
          | inr h ↦ inl (rw h refl)
        ]
  del-Takes write_event r true re we fd sr sw =
      elim (Bool-cases
        (ctl_left epoll_ctl (context r true re we fd) (record { reads = r; writes = false }))) [
          | inl h ↦ inr (
            record { context = context r false re no_context fd; removed = 1; calls = [] },
            rw h refl,
            record { sound = (sr, refl); same_fd = refl; counted = omega arith },
          )
          | inr h ↦ inl (rw h refl)
        ]

  -- On a valid IOManager delEvent fails no assertion and leaves a valid one: an event context is
  -- set exactly when its event is registered, and m_pendingEventCount is the number of registered
  -- events.
  pub del_event-Answers :
      (m : IoManager) (fd : ℕ) (event : Event)
      → IsValid m
      → Answers m (del_event epoll_ctl m fd event)
  unfolding del_event
  del_event-Answers m fd event v =
      on_context-Answers (del_from_context epoll_ctl event) m fd v (λ c _ s.
        del-Takes event c.events.reads c.events.writes c.read_event_context c.write_event_context
          c.fd s.0 s.1)

  -- On a valid IOManager cancelEvent fails no assertion and leaves a valid one: an event context
  -- is set exactly when its event is registered, and m_pendingEventCount is the number of
  -- registered events.
  pub cancel_event-Answers :
      (m : IoManager) (fd : ℕ) (event : Event)
      → IsValid m
      → Answers m (cancel_event epoll_ctl m fd event)
  unfolding cancel_event
  cancel_event-Answers m fd event v =
      on_context-Answers (cancel_in_context epoll_ctl event) m fd v (λ c _ s.
        cancel-Takes event c.events.reads c.events.writes c.read_event_context c.write_event_context
          c.fd s.0 s.1)
