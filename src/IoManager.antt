-- ===== src/IoManager.antt =====
-- The events of an IOManager (yuan/iomanager.h, yuan/iomanager.cc): registering, deleting,
-- cancelling and triggering them, and what idle does with the events that epoll_wait reports.
-- Schedulers, fibers and callbacks are named by numbers, and a null pointer or an empty
-- std::function is `none`. A file descriptor is not negative. `epoll_ctl` is the answer of the
-- kernel: whether the call returns 0. The locks make each member function one step.
pub mod Add
pub mod Remove
pub mod Invariant
pub mod Laws
pub mod Dispatch
pub mod Register
mod Tests
use cpp_linux_server_frame.Base.{
  ℕ, zero, suc, ◌+◌, ◌-◌, ◌*◌, ◌/◌, ◌%◌, ◌^◌, Bool, true, false, ◌&&◌, ◌||◌, List, [], ◌∷◌, ◌++◌,
  Option, none, some, if◌then◌else◌,
}

-- IOManager::Event
pub data Event : Type 0 where
  no_event read_event write_event : Event

-- A set of events: the bits EPOLLIN and EPOLLOUT of an integer.
pub record Mask : Type 0 where
  pub reads : Bool
  pub writes : Bool

-- `events & event`, `events | event`, `events & ~event`
abbrev pub has : Mask → Event → Bool
has m no_event = false
has m read_event = m.reads
has m write_event = m.writes

abbrev pub with_event : Mask → Event → Mask
with_event m no_event = m
with_event m read_event = record m { reads = true }
with_event m write_event = record m { writes = true }

abbrev pub without_event : Mask → Event → Mask
without_event m no_event = m
without_event m read_event = record m { reads = false }
without_event m write_event = record m { writes = false }

abbrev pub any : Mask → Bool
any m = m.reads || m.writes

-- A failed YUAN_ASSERT ends the process; `out_of_bounds` is an index behind the end of a vector.
pub data Checked {ℓ} (A : Type ℓ) : Type ℓ where
  assertion out_of_bounds : Checked A
  done : A → Checked A

abbrev pub and_then {ℓ κ} : {A : Type ℓ} {B : Type κ} → Checked A → (A → Checked B) → Checked B
and_then assertion f = assertion
and_then out_of_bounds f = out_of_bounds
and_then (done a) f = f a

pub record EventContext : Type 0 where
  pub scheduler : Option ℕ
  pub fiber : Option ℕ
  pub cb : Option ℕ

-- What a scheduler is given to run.
pub data Task : Type 0 where
  run_fiber run_cb : ℕ → Task

pub record FdContext : Type 0 where
  pub read_event_context : EventContext
  pub write_event_context : EventContext
  pub fd : ℕ
  pub events : Mask

-- resetEventContext
abbrev pub no_context : EventContext
no_context = record { scheduler = none; fiber = none; cb = none }

abbrev pub no_events : Mask
no_events = record { reads = false; writes = false }

abbrev pub new_fd_context : ℕ → FdContext
new_fd_context i = record {
  read_event_context = no_context;
  write_event_context = no_context;
  fd = i;
  events = no_events;
}

unfoldable pub get_event_context : FdContext → Event → Checked EventContext
get_event_context c no_event = assertion
get_event_context c read_event = done c.read_event_context
get_event_context c write_event = done c.write_event_context

-- A store through the reference that getEventContext returns.
abbrev pub put_event_context : FdContext → Event → EventContext → FdContext
put_event_context c no_event e = c
put_event_context c read_event e = record c { read_event_context = e }
put_event_context c write_event e = record c { write_event_context = e }

-- The scheduler is told to run the callback, else the fiber.
abbrev pub scheduled : ℕ → EventContext → List (ℕ × Task)
scheduled s e = elim e.cb [
  | some f ↦ (s, run_cb f) ∷ []
  | none ↦ elim e.fiber [ some f ↦ (s, run_fiber f) ∷ [] | none ↦ [] ]
]

-- triggerEvent, with the calls of Scheduler::schedule that it makes
unfoldable pub trigger_event : FdContext → Event → Checked (FdContext × List (ℕ × Task))
trigger_event c event =
    if has c.events event
    then and_then (get_event_context c event) (λ e. elim e.scheduler [
      | none ↦ assertion
      | some s ↦ done (
        record (put_event_context c event no_context) { events = without_event c.events event },
        scheduled s e,
      )
    ])
    else assertion

pub record IoManager : Type 0 where
  pub fd_contexts : List FdContext
  pub pending_event_count : ℕ
  -- The calls of Scheduler::schedule so far, in order.
  pub calls : List (ℕ × Task)

-- The loop of resizeFdContexts over a vector that resize has made `size` long, from index `i` on.
unfoldable pub fill : ℕ → ℕ → List FdContext → List FdContext
fill i zero l = []
fill i (suc size) [] = new_fd_context i ∷ fill (suc i) size []
fill i (suc size) (c ∷ l) = record c { fd = i } ∷ fill (suc i) size l

unfoldable pub resize_fd_contexts : IoManager → ℕ → IoManager
resize_fd_contexts m size = record m { fd_contexts = fill 0 size m.fd_contexts }

-- The constructor calls resizeFdContexts(64).
unfoldable pub new_io_manager : IoManager
new_io_manager =
    resize_fd_contexts (record { fd_contexts = []; pending_event_count = 0; calls = [] }) 64

-- m_pendingEventCount is an atomic size_t.
abbrev pub increment : ℕ → ℕ
increment n = (n + 1) % 2 ^ 64

abbrev pub decrement : ℕ → ℕ
decrement n = (n + (2 ^ 64 - 1)) % 2 ^ 64

pub data Op : Type 0 where
  ctl_add ctl_mod ctl_del : Op
