-- ===== src/IoManager/Dispatch.antt =====
-- cancelAll and idle: what they schedule, and when they fail.
use cpp_linux_server_frame.Base.{
  ℕ, ◌≡◌, refl, ap₂, sym, subst, inl, inr, Bool, true, false, ◌||◌, List, [], ◌∷◌, ◌++◌, Option,
  none, some, get_elem?, set, arith, Bool-cases,
}
use cpp_linux_server_frame.IoManager.{
  Mask, any, no_events, Checked, assertion, done, EventContext, no_context, Task, run_fiber, run_cb,
  FdContext, new_fd_context, trigger_event, scheduled, get_event_context, IoManager, Op, ctl_del,
}
use cpp_linux_server_frame.IoManager.Remove.{
  Effect, decrements, on_context, cancel_all_in_context, cancel_all, real_events, idle_in_context,
  idle_event, ctl_left,
}
use cpp_linux_server_frame.IoManager.Invariant.{armed, Slot, count, IsValid, AllSound-get}
use cpp_linux_server_frame.IoManager.Laws.{
  context, trigger_read, trigger_write, Takes, Taken, Answers, on_context-Answers,
}

-- The tasks that wait for the events of a context, the reader first.
abbrev pub held : EventContext → List (ℕ × Task)
held e = elim e.scheduler [ none ↦ [] | some s ↦ scheduled s e ]

abbrev pub waiting : FdContext → List (ℕ × Task)
waiting c = held c.read_event_context ++ held c.write_event_context

clash : false ≡ true → ⊥
clash e = cc

abbrev cleared : FdContext → Effect
cleared c = record { context = new_fd_context c.fd; removed = count c; calls = waiting c }

module _ (epoll_ctl : Op → ℕ → Mask → Bool) where
  module _ (fd s : ℕ) (ctl : epoll_ctl ctl_del fd no_events ≡ true) where
    clears_one :
        (t : Task)
        → (cancel_all_in_context epoll_ctl (context true false (armed s t) no_context fd)
            ≡ done (some (cleared (context true false (armed s t) no_context fd))))
          × (cancel_all_in_context epoll_ctl (context false true no_context (armed s t) fd)
              ≡ done (some (cleared (context false true no_context (armed s t) fd))))
    unfolding cancel_all_in_context trigger_event get_event_context
    clears_one (run_fiber f) = (rw ctl refl, rw ctl refl)
    clears_one (run_cb f) = (rw ctl refl, rw ctl refl)

    clears_two :
        (s' : ℕ) (t t' : Task)
        → cancel_all_in_context epoll_ctl (context true true (armed s t) (armed s' t') fd)
          ≡ done (some (cleared (context true true (armed s t) (armed s' t') fd)))
    unfolding cancel_all_in_context trigger_event get_event_context
    clears_two s' (run_fiber f) (run_fiber g) = rw ctl refl
    clears_two s' (run_fiber f) (run_cb g) = rw ctl refl
    clears_two s' (run_cb f) (run_fiber g) = rw ctl refl
    clears_two s' (run_cb f) (run_cb g) = rw ctl refl

  abbrev Clears : FdContext → Type 0
  Clears c = cancel_all_in_context epoll_ctl c ≡ done (some (cleared c))

  clears :
      (r w : Bool) (re we : EventContext) (fd : ℕ)
      → Slot r re
      → Slot w we
      → (r || w) ≡ true
      → epoll_ctl ctl_del fd no_events ≡ true
      → Clears (context r w re we fd)
  clears false false re we fd sr sw some_event ctl = cc
  clears true false re we fd (s, t, e) sw some_event ctl =
      subst Clears (sym (ap₂ (λ a b. context true false a b fd) e sw)) (clears_one fd s ctl t).0
  clears false true re we fd sr (s, t, e) some_event ctl =
      subst Clears (sym (ap₂ (λ a b. context false true a b fd) sr e)) (clears_one fd s ctl t).1
  clears true true re we fd (s, t, e) (s', t', e') some_event ctl =
      subst Clears (sym (ap₂ (λ a b. context true true a b fd) e e')) (clears_two fd s ctl s' t t')

  -- On a valid IOManager, for a context with a registered event for which epoll_ctl succeeds,
  -- cancelAll returns true, leaves the context as a new one, takes the number of its registered
  -- events from the counter, and schedules the task of the reader and then the task of the
  -- writer, as far as there are these.
  pub cancel_all_lem :
      (m : IoManager) (fd : ℕ) (c : FdContext)
      → IsValid m
      → get_elem? m.fd_contexts fd ≡ some c
      → any c.events ≡ true
      → epoll_ctl ctl_del c.fd no_events ≡ true
      → cancel_all epoll_ctl m fd
        ≡ done (
          true,
          record m {
            fd_contexts = set m.fd_contexts fd (new_fd_context c.fd);
            pending_event_count = decrements (count c) m.pending_event_count;
            calls = m.calls ++ waiting c;
          },
        )
  unfolding cancel_all on_context
  cancel_all_lem m fd c v there some_event ctl =
      let s = AllSound-get 0 m.fd_contexts fd c v.contexts there in
      rw
        (
          on_context,
          there,
          clears c.events.reads c.events.writes c.read_event_context c.write_event_context c.fd s.0
              s.1 some_event ctl,
        )
        refl

  cancel_all-Takes :
      (r w : Bool) (re we : EventContext) (fd : ℕ)
      → Slot r re
      → Slot w we
      → Takes (context r w re we fd) (cancel_all_in_context epoll_ctl (context r w re we fd))
  unfolding cancel_all_in_context
  cancel_all-Takes r w re we fd sr sw = elim (Bool-cases (r || w)) [
    | inr h ↦ inl (rw (cancel_all_in_context, h) refl)
    | inl h ↦ elim (Bool-cases (epoll_ctl ctl_del fd no_events)) [
      | inr k ↦ inl (rw (cancel_all_in_context, h, k) refl)
      | inl k ↦ inr (
        cleared (context r w re we fd),
        clears r w re we fd sr sw h k,
        record { sound = (refl, refl); same_fd = refl; counted = omega arith },
      )
    ]
  ]

  -- On a valid IOManager cancelAll fails no assertion and leaves a valid one.
  pub cancel_all-Answers :
      (m : IoManager) (fd : ℕ) → IsValid m → Answers m (cancel_all epoll_ctl m fd)
  unfolding cancel_all
  cancel_all-Answers m fd v = on_context-Answers (cancel_all_in_context epoll_ctl) m fd v (λ c _ s.
      cancel_all-Takes c.events.reads c.events.writes c.read_event_context c.write_event_context
        c.fd s.0 s.1)

  -- The kernel takes the change and the events are triggered, or nothing happens.
  taken :
      (r w : Bool) (re we : EventContext) (fd : ℕ) (left : Mask) (x : Effect)
      → Taken (context r w re we fd) x
      → (res : Checked (Option Effect))
      → (ctl_left epoll_ctl (context r w re we fd) left ≡ true → res ≡ done (some x))
      → (ctl_left epoll_ctl (context r w re we fd) left ≡ false → res ≡ done none)
      → Takes (context r w re we fd) res
  taken r w re we fd left x t res accepted refused =
      elim (Bool-cases (ctl_left epoll_ctl (context r w re we fd) left)) [
        | inl h ↦ inr (x, accepted h, t)
        | inr h ↦ inl (refused h)
      ]

  idle-Takes :
      (x y r w : Bool) (re we : EventContext) (fd : ℕ)
      → Slot r re
      → Slot w we
      → (x ≡ true → r ≡ true)
      → (y ≡ true → w ≡ true)
      → Takes
          (context r w re we fd)
          (idle_in_context epoll_ctl (record { reads = x; writes = y }) (context r w re we fd))
  unfolding idle_in_context
  idle-Takes false false false false re we fd sr sw p q = inl refl
  idle-Takes false false false true re we fd sr sw p q = inl refl
  idle-Takes false false true false re we fd sr sw p q = inl refl
  idle-Takes false false true true re we fd sr sw p q = inl refl
  idle-Takes false true false false re we fd sr sw p q = absurd (clash (q refl))
  idle-Takes false true false true re we fd sr (s, t, e) p q =
      taken false true re we fd (record { reads = false; writes = false })
        (record {
          context = context false false re no_context fd;
          removed = 1;
          calls = (s, t) ∷ [];
        })
        (record { sound = (sr, refl); same_fd = refl; counted = omega arith })
        (idle_in_context epoll_ctl (record { reads = false; writes = true })
          (context false true re we fd))
        (λ h. rw (h, e, trigger_write false re fd s t) refl) (λ h. rw h refl)
  idle-Takes false true true false re we fd sr sw p q = absurd (clash (q refl))
  idle-Takes false true true true re we fd sr (s, t, e) p q =
      taken true true re we fd (record { reads = true; writes = false })
        (record { context = context true false re no_context fd; removed = 1; calls = (s, t) ∷ [] })
        (record { sound = (sr, refl); same_fd = refl; counted = omega arith })
        (idle_in_context epoll_ctl (record { reads = false; writes = true })
          (context true true re we fd))
        (λ h. rw (h, e, trigger_write true re fd s t) refl) (λ h. rw h refl)
  idle-Takes true false false false re we fd sr sw p q = absurd (clash (p refl))
  idle-Takes true false false true re we fd sr sw p q = absurd (clash (p refl))
  idle-Takes true false true false re we fd (s, t, e) sw p q =
      taken true false re we fd (record { reads = false; writes = false })
        (record {
          context = context false false no_context we fd;
          removed = 1;
          calls = (s, t) ∷ [];
        })
        (record { sound = (refl, sw); same_fd = refl; counted = omega arith })
        (idle_in_context epoll_ctl (record { reads = true; writes = false })
          (context true false re we fd))
        (λ h. rw (h, e, trigger_read false we fd s t) refl) (λ h. rw h refl)
  idle-Takes true false true true re we fd (s, t, e) sw p q =
      taken true true re we fd (record { reads = false; writes = true })
        (record { context = context false true no_context we fd; removed = 1; calls = (s, t) ∷ [] })
        (record { sound = (refl, sw); same_fd = refl; counted = omega arith })
        (idle_in_context epoll_ctl (record { reads = true; writes = false })
          (context true true re we fd))
        (λ h. rw (h, e, trigger_read true we fd s t) refl) (λ h. rw h refl)
  idle-Takes true true false false re we fd sr sw p q = absurd (clash (p refl))
  idle-Takes true true false true re we fd sr sw p q = absurd (clash (p refl))
  idle-Takes true true true false re we fd sr sw p q = absurd (clash (q refl))
  idle-Takes true true true true re we fd (s, t, e) (s', t', e') p q =
      taken true true re we fd (record { reads = false; writes = false })
        (record {
          context = context false false no_context no_context fd;
          removed = 2;
          calls = (s, t) ∷ (s', t') ∷ [];
        })
        (record { sound = (refl, refl); same_fd = refl; counted = omega arith })
        (idle_in_context epoll_ctl (record { reads = true; writes = true })
          (context true true re we fd))
        (λ h.
          rw
            (
              h,
              e,
              e',
              trigger_read true (armed s' t') fd s t,
              trigger_write false no_context fd s' t',
            )
            refl)
        (λ h. rw h refl)

  -- On a valid IOManager, when the events that idle takes from epoll_wait for a context are all
  -- registered in it, idle fails no assertion on them and leaves a valid IOManager.
  idle_event-Answers :
      (m : IoManager) (fd : ℕ) (reported : Mask) (error : Bool)
      → IsValid m
      → ((c : FdContext)
          → get_elem? m.fd_contexts fd ≡ some c
          → ((real_events reported error).reads ≡ true → c.events.reads ≡ true)
            × ((real_events reported error).writes ≡ true → c.events.writes ≡ true))
      → Answers m (idle_event epoll_ctl m fd reported error)
  unfolding idle_event
  idle_event-Answers m fd reported error v covered =
      on_context-Answers (idle_in_context epoll_ctl (real_events reported error)) m fd v
        (λ c there s.
          idle-Takes (reported.reads || error) (reported.writes || error) c.events.reads
            c.events.writes c.read_event_context c.write_event_context c.fd s.0 s.1
            (covered c there).0 (covered c there).1)

  aborts :
      (x y : Bool) (re we : EventContext) (fd : ℕ)
      → Slot true re
      → epoll_ctl ctl_del fd no_events ≡ true
      → idle_in_context epoll_ctl
          (record { reads = x || true; writes = y || true })
          (context true false re we fd)
        ≡ assertion
  unfolding idle_in_context trigger_event
  aborts true true re we fd (s, t, e) ctl = rw (ctl, e, trigger_read false we fd s t) refl
  aborts true false re we fd (s, t, e) ctl = rw (ctl, e, trigger_read false we fd s t) refl
  aborts false true re we fd (s, t, e) ctl = rw (ctl, e, trigger_read false we fd s t) refl
  aborts false false re we fd (s, t, e) ctl = rw (ctl, e, trigger_read false we fd s t) refl

  -- On a valid IOManager, when epoll_wait reports EPOLLERR or EPOLLHUP for a context that has
  -- only its read event registered, and epoll_ctl succeeds, idle fails an assertion.
  pub idle_event_aborts :
      (m : IoManager) (fd : ℕ) (reported : Mask) (re we : EventContext)
      → IsValid m
      → get_elem? m.fd_contexts fd ≡ some (context true false re we fd)
      → epoll_ctl ctl_del fd no_events ≡ true
      → idle_event epoll_ctl m fd reported true ≡ assertion
  unfolding idle_event on_context
  idle_event_aborts m fd reported re we v there ctl =
      let s = AllSound-get 0 m.fd_contexts fd (context true false re we fd) v.contexts there in
      rw (on_context, there, aborts reported.reads reported.writes re we fd s.0 ctl) refl
