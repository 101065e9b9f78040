-- ===== src/Hook/Sockets.antt =====
-- socket, accept and close of yuan/hook.cc: how the table of descriptors follows the system's.
use cpp_linux_server_frame.Base.{
  ℕ, ◌≡◌, refl, Bool, true, false, List, Option, none, some, ◌++◌, if◌then◌else◌, get_elem?, set,
}
use cpp_linux_server_frame.FdManager.{FdCtx, Answer, answer, out_of_bounds, get, del}
use cpp_linux_server_frame.FdManager.Laws.{get-del}
use cpp_linux_server_frame.IoManager.{
  Mask, any, no_events, Checked, assertion, done, IoManager, FdContext, new_fd_context, Op, ctl_del,
  and_then,
}
use cpp_linux_server_frame.IoManager.Remove.{cancel_all, decrements}
use cpp_linux_server_frame.IoManager.Invariant.{IsValid, count}
use cpp_linux_server_frame.IoManager.Dispatch.{cancel_all_lem, waiting}
use cpp_linux_server_frame.Hook.{
  Sys, gives, fails, Return, returns, times_out, unwatched, aborts, starved,
}

module _ (fstat : ℕ → Option Bool) where
  -- FdMgr's get(fd, true), whose result is not used
  abbrev noted : List (Option FdCtx) → ℕ → Answer (List (Option FdCtx))
  noted d fd = elim (get fstat d (some fd) true) [
    | answer r ↦ answer r.1
    | out_of_bounds ↦ out_of_bounds
  ]

  -- socket, with the answer of socket_f: the table afterwards
  unfoldable pub socket : Bool → Sys → List (Option FdCtx) → Answer (List (Option FdCtx))
  socket hook_enable (fails e) d = answer d
  socket hook_enable (gives fd) d = if hook_enable then noted d fd else answer d

  -- accept, with what its do_io returns: the table afterwards
  unfoldable pub accept : Return → List (Option FdCtx) → Answer (List (Option FdCtx))
  accept (returns (gives fd)) d = noted d fd
  accept (returns (fails e)) d = answer d
  accept times_out d = answer d
  accept unwatched d = answer d
  accept aborts d = answer d
  accept starved d = answer d

  -- The end of close for a descriptor that has a context; `iomanager` is IOManager::GetThis().
  unfoldable pub forget :
      (Op → ℕ → Mask → Bool)
      → ℕ
      → Option IoManager
      → List (Option FdCtx)
      → Checked (Option IoManager × List (Option FdCtx))
  forget epoll_ctl fd none d = done (none, del d fd)
  forget epoll_ctl fd (some m) d =
      and_then (cancel_all epoll_ctl m fd) (λ r. done (some r.1, del d fd))

  -- close, up to close_f
  unfoldable pub close :
      (Op → ℕ → Mask → Bool)
      → Bool
      → ℕ
      → Option IoManager
      → List (Option FdCtx)
      → Checked (Option IoManager × List (Option FdCtx))
  close epoll_ctl hook_enable fd iomanager d =
      if hook_enable
      then elim (get fstat d (some fd) false) [
        | out_of_bounds ↦ assertion
        | answer (none, d') ↦ done (iomanager, d')
        | answer (some c, d') ↦ forget epoll_ctl fd iomanager d'
      ]
      else done (iomanager, d)

  -- What close leaves.
  pub record Closes (m : IoManager) (c : FdContext) (fd : ℕ)
      (r : Checked (Option IoManager × List (Option FdCtx))) : Type 0 where
    pub after : IoManager
    pub datas : List (Option FdCtx)
    pub returned : r ≡ done (some after, datas)
    pub unknown : get fstat datas (some fd) false ≡ answer (none, datas)
    pub cleared : after.fd_contexts ≡ set m.fd_contexts fd (new_fd_context c.fd)
    pub woken : after.calls ≡ m.calls ++ waiting c

  -- On a hooked thread with a valid IOManager, where the descriptor has a context in both tables,
  -- an event registered, and epoll_ctl succeeds, close schedules every task that waits for the
  -- descriptor, leaves it with no event registered, and get then knows it no longer.
  pub close-Closes :
      (epoll_ctl : Op → ℕ → Mask → Bool) (m : IoManager) (d : List (Option FdCtx)) (fd : ℕ)
      (x : FdCtx) (c : FdContext)
      → IsValid m
      → get_elem? d fd ≡ some (some x)
      → get_elem? m.fd_contexts fd ≡ some c
      → any c.events ≡ true
      → epoll_ctl ctl_del c.fd no_events ≡ true
      → Closes m c fd (close epoll_ctl true fd (some m) d)
  unfolding close forget get
  close-Closes epoll_ctl m d fd x c v known there some_event ctl = record {
    after = record m {
      fd_contexts = set m.fd_contexts fd (new_fd_context c.fd);
      pending_event_count = decrements (count c) m.pending_event_count;
      calls = m.calls ++ waiting c;
    };
    datas = del d fd;
    returned =
        simp (close, get, known, forget, cancel_all_lem epoll_ctl m fd c v there some_event ctl);
    unknown = get-del fstat d fd;
    cleared = refl;
    woken = refl;
  }
