-- ===== src/IoManager/Tests.antt =====
-- The theorems on an IOManager at concrete inputs.
use cpp_linux_server_frame.Base.{
  ℕ, ◌≡◌, refl, Bool, true, false, [], ◌∷◌, ◌++◌, none, some, set, get_elem?, arith,
}
use cpp_linux_server_frame.IoManager.{
  read_event, write_event, Mask, assertion, done, run_cb, FdContext, new_fd_context, IoManager,
  fill, Op,
}
use cpp_linux_server_frame.IoManager.Add.{add_event}
use cpp_linux_server_frame.IoManager.Remove.{cancel_event, cancel_all, idle_event, decrements}
use cpp_linux_server_frame.IoManager.Invariant.{IsValid, AllSound-set, fill-AllSound, count}
use cpp_linux_server_frame.IoManager.Dispatch.{waiting, cancel_all_lem, idle_event_aborts}
use cpp_linux_server_frame.IoManager.Register.{
  from, grown, registered, Registers, AddEnds, add_event_lem, cancel_event-add_event,
}

-- Every epoll_ctl succeeds.
abbrev accepting : Op → ℕ → Mask → Bool
accepting op fd events = true

abbrev fresh : IoManager
fresh = record { fd_contexts = fill 0 64 []; pending_event_count = 0; calls = [] }

-- File descriptor 5 is read by callback 9 of scheduler 7.
abbrev reader : FdContext
reader = registered 7 (run_cb 9) read_event (new_fd_context 5)

abbrev busy : IoManager
busy = record { fd_contexts = set (fill 0 64 []) 5 reader; pending_event_count = 1; calls = [] }

fresh-IsValid : IsValid fresh
unfolding fill
fresh-IsValid = record {
  contexts = fill-AllSound 0 64 [] tt;
  counted = refl;
  started = omega arith;
  bounded = omega arith;
}

busy-IsValid : IsValid busy
unfolding fill
busy-IsValid = record {
  contexts =
      AllSound-set 0 (fill 0 64 []) 5 (new_fd_context 5) reader (fill-AllSound 0 64 [] tt) refl
        ((7, run_cb 9, refl), refl) refl;
  counted = refl;
  started = omega arith;
  bounded = omega arith;
}

fresh-Registers : Registers fresh busy 5 7 (run_cb 9) read_event
unfolding fill
fresh-Registers = record {
  valid = busy-IsValid;
  counted = refl;
  same_calls = refl;
  real = λ e. cc;
  before = new_fd_context 5;
  was_there = refl;
  was_free = refl;
  stored = refl;
}

add_event_lem_example :
    IsValid (grown busy 100)
    × AddEnds busy 100 write_event none 7
        (from 7 3 true)
        (add_event accepting busy 100 write_event none (from 7 3 true))
add_event_lem_example =
    add_event_lem accepting 7 3 busy 100 write_event none true busy-IsValid (omega arith)

cancel_event-add_event_example :
    (m'' : IoManager) × (cancel_event accepting busy 5 read_event ≡ done (true, m''))
    × (m''.calls ≡ fresh.calls ++ ((7, run_cb 9) ∷ []))
    × (m''.pending_event_count ≡ fresh.pending_event_count)
cancel_event-add_event_example =
    cancel_event-add_event accepting 7 3 fresh busy 5 read_event (run_cb 9) fresh-IsValid
      fresh-Registers (λ op d k. refl)

reader_there : get_elem? busy.fd_contexts 5 ≡ some reader
unfolding fill
reader_there = refl

cancel_all_lem_example :
    cancel_all accepting busy 5
    ≡ done (
      true,
      record busy {
        fd_contexts = set busy.fd_contexts 5 (new_fd_context 5);
        pending_event_count = decrements (count reader) busy.pending_event_count;
        calls = busy.calls ++ waiting reader;
      },
    )
cancel_all_lem_example = cancel_all_lem accepting busy 5 reader busy-IsValid reader_there refl refl

abbrev readable : Mask
readable = record { reads = true; writes = false }

idle_event_aborts_example : idle_event accepting busy 5 readable true ≡ assertion
idle_event_aborts_example =
    idle_event_aborts accepting busy 5 readable reader.read_event_context reader.write_event_context
      busy-IsValid reader_there refl
