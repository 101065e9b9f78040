-- ===== src/IoManager/Register.antt =====
-- addEvent: what it stores, and that the IOManager stays valid.
use cpp_linux_server_frame.Base.{
  ℕ, suc, ◌*◌, ◌/◌, ◌^◌, ◌≤◌, ◌<◌, ◌≡◌, ◌≢◌, refl, ap, sym, subst, ◌∙◌, inl, inr, ◌⊎◌, Bool, true,
  false, List, [], ◌∷◌, ◌++◌, Option, none, some, if◌then◌else◌, get_elem?, set, arith, Bool-cases,
  length, length-set, get_elem?-set_self, ltb,
}
use cpp_linux_server_frame.IoManager.{
  Event, no_event, read_event, write_event, Mask, has, with_event, any, Checked, assertion, done,
  EventContext, no_context, Task, run_fiber, run_cb, FdContext, put_event_context,
  get_event_context, IoManager, resize_fd_contexts, increment, Op, ctl_add, ctl_mod, ctl_del,
}
use cpp_linux_server_frame.IoManager.Add.{Caller, new_context, add_to_context, add_at, add_event}
use cpp_linux_server_frame.IoManager.Invariant.{
  armed, Slot, IsSound, bit, count, total, IsValid, AllSound-get, AllSound-set, total-set, total-le,
  fill-AllSound, total-fill, length-fill, get-some,
}
use cpp_linux_server_frame.IoManager.Laws.{context, trigger_read, trigger_write}
use cpp_linux_server_frame.IoManager.Remove.{apply, on_context, cancel_in_context, cancel_event}

-- The task that the caller registers: `cb`, else its fiber.
abbrev pub task_of : Caller → Option ℕ → Task
task_of caller none = run_fiber caller.fiber
task_of caller (some f) = run_cb f

abbrev pub registered : ℕ → Task → Event → FdContext → FdContext
registered s t event c =
    put_event_context (record c { events = with_event c.events event }) event (armed s t)

-- Why addEvent fails an assertion on a sound context.
abbrev pub Refused : FdContext → Event → Caller → Option ℕ → Type 0
Refused c event caller cb =
    (has c.events event ≡ true) ⊎ (event ≡ no_event) ⊎ ((cb ≡ none) × (caller.executing ≡ false))

-- The ways addEvent can end on a context: a failed assertion, -1 with the context as it was, or 0
-- with the event registered for the task.
abbrev Adds : Event → ℕ → Caller → Option ℕ → FdContext → Checked (Bool × FdContext) → Type 0
Adds event s caller cb c r =
    ((r ≡ assertion) × Refused c event caller cb)
    ⊎ (r ≡ done (false, c))
    ⊎ ((r ≡ done (true, registered s (task_of caller cb) event c))
        × (has c.events event ≡ false)
        × (event ≢ no_event))

-- The vector that addEvent works on.
abbrev pub grown : IoManager → ℕ → IoManager
grown m fd = if ltb fd (length m.fd_contexts) then m else resize_fd_contexts m (fd * 3 / 2)

grown-IsValid :
    (m : IoManager) (fd : ℕ)
    → fd < 2 ^ 31
    → IsValid m
    → IsValid (grown m fd) × (fd < length (grown m fd).fd_contexts)
unfolding resize_fd_contexts
grown-IsValid m fd small v = elim (Bool-cases (ltb fd (length m.fd_contexts))) [
  | inl h ↦ rw h (v, ground arith)
  | inr h ↦
      let beyond : length m.fd_contexts ≤ fd = ground arith in
      rw h (
        record {
          contexts = fill-AllSound 0 (fd * 3 / 2) m.fd_contexts v.contexts;
          counted =
              v.counted ∙ sym (total-fill 0 (fd * 3 / 2) m.fd_contexts (omega (arith, v.started)));
          started = omega (arith, length-fill 0 (fd * 3 / 2) m.fd_contexts, v.started);
          bounded = omega (arith, length-fill 0 (fd * 3 / 2) m.fd_contexts);
        },
        omega (arith, length-fill 0 (fd * 3 / 2) m.fd_contexts, v.started),
      )
]

abbrev pub from : ℕ → ℕ → Bool → Caller
from s fiber executing = record { scheduler = some s; fiber = fiber; executing = executing }

increment_lem : (n : ℕ) → n < 2 ^ 34 → increment n ≡ suc n
increment_lem n h = omega arith

small : (m : IoManager) → IsValid m → m.pending_event_count < 2 ^ 34
small m v = omega (arith, v.counted, v.bounded, total-le m.fd_contexts)

-- The counter after one more event.
wraps :
    (m : IoManager) (fd : ℕ) (c c' : FdContext)
    → IsValid m
    → get_elem? m.fd_contexts fd ≡ some c
    → count c' ≡ suc (count c)
    → increment m.pending_event_count ≡ total (set m.fd_contexts fd c')
wraps m fd c c' v there more =
    increment_lem m.pending_event_count (small m v)
    ∙ omega (arith, v.counted, total-set m.fd_contexts fd c c' there)

module _ (epoll_ctl : Op → ℕ → Mask → Bool) (s fiber : ℕ) where
  abbrev ctl_now : FdContext → Event → Bool
  ctl_now c event =
      epoll_ctl (if any c.events then ctl_mod else ctl_add) c.fd (with_event c.events event)

  register_reader :
      (executing : Bool) (cb : Option ℕ) (w : Bool) (we : EventContext) (fd : ℕ)
      → Adds read_event s (from s fiber executing) cb (context false w no_context we fd) (
          add_to_context epoll_ctl
            (from s fiber executing)
            cb
            read_event
            (context false w no_context we fd))
  unfolding add_to_context new_context get_event_context
  register_reader x (some f) w we fd =
      elim (Bool-cases (ctl_now (context false w no_context we fd) read_event)) [
        | inl h ↦ inr (inr (rw h refl, refl, λ e. cc))
        | inr h ↦ inr (inl (rw h refl))
      ]
  register_reader true none w we fd =
      elim (Bool-cases (ctl_now (context false w no_context we fd) read_event)) [
        | inl h ↦ inr (inr (rw h refl, refl, λ e. cc))
        | inr h ↦ inr (inl (rw h refl))
      ]
  register_reader false none w we fd =
      elim (Bool-cases (ctl_now (context false w no_context we fd) read_event)) [
        | inl h ↦ inl (rw h refl, inr (inr (refl, refl)))
        | inr h ↦ inr (inl (rw h refl))
      ]

  register_writer :
      (executing : Bool) (cb : Option ℕ) (r : Bool) (re : EventContext) (fd : ℕ)
      → Adds write_event s (from s fiber executing) cb (context r false re no_context fd) (
          add_to_context epoll_ctl
            (from s fiber executing)
            cb
            write_event
            (context r false re no_context fd))
  unfolding add_to_context new_context get_event_context
  register_writer x (some f) r re fd =
      elim (Bool-cases (ctl_now (context r false re no_context fd) write_event)) [
        | inl h ↦ inr (inr (rw h refl, refl, λ e. cc))
        | inr h ↦ inr (inl (rw h refl))
      ]
  register_writer true none r re fd =
      elim (Bool-cases (ctl_now (context r false re no_context fd) write_event)) [
        | inl h ↦ inr (inr (rw h refl, refl, λ e. cc))
        | inr h ↦ inr (inl (rw h refl))
      ]
  register_writer false none r re fd =
      elim (Bool-cases (ctl_now (context r false re no_context fd) write_event)) [
        | inl h ↦ inl (rw h refl, inr (inr (refl, refl)))
        | inr h ↦ inr (inl (rw h refl))
      ]

  abbrev Added : Bool → Option ℕ → Event → FdContext → Type 0
  Added x cb event c =
      Adds event s (from s fiber x) cb c (add_to_context epoll_ctl (from s fiber x) cb event c)

  add-Added :
      (x : Bool) (cb : Option ℕ) (event : Event) (r w : Bool) (re we : EventContext) (fd : ℕ)
      → Slot r re
      → Slot w we
      → Added x cb event (context r w re we fd)
  unfolding add_to_context get_event_context
  add-Added x cb no_event r w re we fd sr sw =
      elim (Bool-cases (ctl_now (context r w re we fd) no_event)) [
        | inl h ↦ inl (rw h refl, inr (inl refl))
        | inr h ↦ inr (inl (rw h refl))
      ]
  add-Added x cb read_event true w re we fd sr sw = inl (refl, inl refl)
  add-Added x cb write_event r true re we fd sr sw = inl (refl, inl refl)
  add-Added x cb read_event false w re we fd sr sw =
      subst (λ (a : EventContext). Added x cb read_event (context false w a we fd)) (sym sr)
        (register_reader x cb w we fd)
  add-Added x cb write_event r false re we fd sr sw =
      subst (λ (a : EventContext). Added x cb write_event (context r false re a fd)) (sym sw)
        (register_writer x cb r re fd)

  registered-IsSound :
      (event : Event) (t : Task) (c : FdContext)
      → has c.events event ≡ false
      → event ≢ no_event
      → IsSound c
      → IsSound (registered s t event c)
        × (count (registered s t event c) ≡ suc (count c))
        × ((registered s t event c).fd ≡ c.fd)
  registered-IsSound no_event t c h n v = absurd (n refl)
  registered-IsSound read_event t c h n v = (((s, t, refl), v.1), omega (arith, ap bit h), refl)
  registered-IsSound write_event t c h n v = ((v.0, (s, t, refl)), omega (arith, ap bit h), refl)

-- What addEvent does once the event is registered for the task `t` of the scheduler `s`.
pub record Registers (m m' : IoManager) (fd s : ℕ) (t : Task) (event : Event) : Type 0 where
  pub valid : IsValid m'
  pub counted : m'.pending_event_count ≡ suc m.pending_event_count
  pub same_calls : m'.calls ≡ m.calls
  pub real : event ≢ no_event
  pub before : FdContext
  pub was_there : get_elem? (grown m fd).fd_contexts fd ≡ some before
  pub was_free : has before.events event ≡ false
  pub stored : get_elem? m'.fd_contexts fd ≡ some (registered s t event before)

abbrev pub AddEnds :
    IoManager → ℕ → Event → Option ℕ → ℕ → Caller → Checked (Bool × IoManager) → Type 0
AddEnds m fd event cb s caller r =
    ((r ≡ assertion)
      × ((c : FdContext) × (get_elem? (grown m fd).fd_contexts fd ≡ some c)
          × Refused c event caller cb))
    ⊎ (r ≡ done (false, grown m fd))
    ⊎ ((m' : IoManager) × (r ≡ done (true, m')) × Registers m m' fd s (task_of caller cb) event)

module _ (epoll_ctl : Op → ℕ → Mask → Bool) (s fiber : ℕ) where
  same_but_grown :
      (m : IoManager) (fd : ℕ)
      → ((grown m fd).pending_event_count ≡ m.pending_event_count) × ((grown m fd).calls ≡ m.calls)
  unfolding resize_fd_contexts
  same_but_grown m fd = elim (Bool-cases (ltb fd (length m.fd_contexts))) [
    | inl h ↦ rw h (refl, refl)
    | inr h ↦ rw h (refl, refl)
  ]

  add_event_at :
      (m : IoManager) (fd : ℕ) (event : Event) (cb : Option ℕ) (x : Bool)
      → add_event epoll_ctl m fd event cb (from s fiber x)
        ≡ add_at epoll_ctl (grown m fd) fd (from s fiber x) cb event
  unfolding add_event
  add_event_at m fd event cb x = elim (Bool-cases (ltb fd (length m.fd_contexts))) [
    | inl h ↦ rw h refl
    | inr h ↦ rw h refl
  ]

  add_at_ends :
      (m : IoManager) (fd : ℕ) (event : Event) (cb : Option ℕ) (x : Bool)
      → IsValid (grown m fd)
      → fd < length (grown m fd).fd_contexts
      → AddEnds m fd event cb s
          (from s fiber x)
          (add_at epoll_ctl (grown m fd) fd (from s fiber x) cb event)
  unfolding add_at
  add_at_ends m fd event cb x v inside =
      let (c, there) = get-some (grown m fd).fd_contexts fd inside in
      let sound = AllSound-get 0 (grown m fd).fd_contexts fd c v.contexts there in
      elim (add-Added epoll_ctl s fiber x cb event c.events.reads c.events.writes
        c.read_event_context c.write_event_context c.fd sound.0 sound.1) [
          | inl (r, why) ↦ inl (rw (add_at, there, r) refl, (c, there, why))
          | inr (inl r) ↦ inr (inl (rw (add_at, there, r) refl))
          | inr (inr (r, free, real)) ↦
              let t : Task = task_of (from s fiber x) cb in
              let c' : FdContext = registered s t event c in
              let (sound', more, same) =
                registered-IsSound epoll_ctl s fiber event t c free real sound in
              inr (
                inr (
                  record (grown m fd) {
                    fd_contexts = set (grown m fd).fd_contexts fd c';
                    pending_event_count = increment (grown m fd).pending_event_count;
                  },
                  rw (add_at, there, r) refl,
                  record {
                    valid = record {
                      contexts =
                          AllSound-set 0 (grown m fd).fd_contexts fd c c' v.contexts there sound'
                            same;
                      counted = wraps (grown m fd) fd c c' v there more;
                      started = omega (arith, length-set (grown m fd).fd_contexts fd c', v.started);
                      bounded = omega (arith, length-set (grown m fd).fd_contexts fd c', v.bounded);
                    };
                    counted =
                        increment_lem (grown m fd).pending_event_count (small (grown m fd) v)
                        ∙ ap suc (same_but_grown m fd).0;
                    same_calls = (same_but_grown m fd).1;
                    real = real;
                    before = c;
                    was_there = there;
                    was_free = free;
                    stored = get_elem?-set_self (grown m fd).fd_contexts fd c' inside;
                  },
                ))
        ]

  -- On a valid IOManager, for a descriptor below 2 ^ 31 and a caller that runs in a scheduler
  -- `s`, addEvent ends in one of three ways, and the vector, grown when the descriptor is beyond
  -- it, stays valid: it fails an assertion, and then the event was registered already, or is
  -- NONE, or there is no callback and the calling fiber is not in EXEC; it returns -1 and only
  -- the vector has grown; or it returns 0, and then the event, which was not registered, is
  -- registered in the descriptor's context for the callback, or for the calling fiber where there
  -- is none, the counter is one more, nothing is scheduled, and the IOManager is valid.
  pub add_event_lem :
      (m : IoManager) (fd : ℕ) (event : Event) (cb : Option ℕ) (x : Bool)
      → IsValid m
      → fd < 2 ^ 31
      → IsValid (grown m fd)
        × AddEnds m fd event cb s
            (from s fiber x)
            (add_event epoll_ctl m fd event cb (from s fiber x))
  add_event_lem m fd event cb x v fits =
      let (v', inside) = grown-IsValid m fd fits v in
      (
        v',
        subst (AddEnds m fd event cb s (from s fiber x)) (sym (add_event_at m fd event cb x))
            (add_at_ends m fd event cb x v' inside),
      )

  cancels :
      (event : Event) (t : Task) (c : FdContext)
      → has c.events event ≡ false
      → event ≢ no_event
      → ((op : Op) (d : ℕ) (k : Mask) → epoll_ctl op d k ≡ true)
      → (c' : FdContext) × (cancel_in_context epoll_ctl event (registered s t event c)
          ≡ done (some (record { context = c'; removed = 1; calls = (s, t) ∷ [] })))
  unfolding cancel_in_context
  cancels no_event t c h n accepts = absurd (n refl)
  cancels read_event t c h n accepts = (
    context false c.events.writes no_context c.write_event_context c.fd,
    rw
        (
          accepts (if c.events.writes then ctl_mod else ctl_del) c.fd
              (record { reads = false; writes = c.events.writes }),
          trigger_read c.events.writes c.write_event_context c.fd s t,
        )
        refl,
  )
  cancels write_event t c h n accepts = (
    context c.events.reads false c.read_event_context no_context c.fd,
    rw
        (
          accepts
              (if any (record { reads = c.events.reads; writes = false }) then ctl_mod else ctl_del)
              c.fd (record { reads = c.events.reads; writes = false }),
          trigger_write c.events.reads c.read_event_context c.fd s t,
        )
        refl,
  )

  -- Where addEvent on a valid IOManager has registered an event for a task of the scheduler `s`,
  -- and every call of epoll_ctl succeeds, cancelEvent on it returns true, schedules just that
  -- task in `s`, and brings the counter back.
  pub cancel_event-add_event :
      (m m' : IoManager) (fd : ℕ) (event : Event) (t : Task)
      → IsValid m
      → Registers m m' fd s t event
      → ((op : Op) (d : ℕ) (k : Mask) → epoll_ctl op d k ≡ true)
      → (m'' : IoManager) × (cancel_event epoll_ctl m' fd event ≡ done (true, m''))
        × (m''.calls ≡ m.calls ++ ((s, t) ∷ []))
        × (m''.pending_event_count ≡ m.pending_event_count)
  unfolding cancel_event on_context
  cancel_event-add_event m m' fd event t v r accepts =
      let (c', e) = cancels event t r.before r.was_free r.real accepts in
      (
        (apply m' fd (some (record { context = c'; removed = 1; calls = (s, t) ∷ [] }))).1,
        rw (on_context, r.stored, e) refl,
        ap (λ (l : List (ℕ × Task)). l ++ ((s, t) ∷ [])) r.same_calls,
        omega (arith, r.counted, small m v),
      )
