-- ===== src/Hook/Wakes.antt =====
-- What connect_with_timeout answers where it cannot wait.
use cpp_linux_server_frame.Base.{
  ℕ, zero, suc, ◌≡◌, inl, inr, refl, ap, ◌∙◌, true, false, Option, none, some, ◌==◌, Bool-cases,
  arith,
}
use cpp_linux_server_frame.FdManager.{FdCtx}
use cpp_linux_server_frame.IoManager.{Event, write_event, done, IoManager}
use cpp_linux_server_frame.Hook.{
  Sys, Return, gives, fails, einprogress, no_timeout, World, Env, Round, returns, refused, arm,
  register, watch, so_error, await_connect, after_connect, connect_with_timeout,
}
use cpp_linux_server_frame.Hook.Waiting.{Owned, IsFresh, adds, armed-Owned, disarm-Owned}

module _ (env : Env) (fd : ℕ) (event : Event) (timeout : ℕ) where
  registered_refused :
      (t : Option ℕ) (w : World) (io : IoManager)
      → Owned env t w
      → adds env fd event timeout w.io ≡ done (false, io)
      → (w' : World) × Owned env none w' × (register env fd event timeout t w ≡ refused w')
  unfolding register
  registered_refused t w io o e =
      let (w', d, same, o') =
        disarm-Owned env t (record w { io = io }) (record { valid = o.valid; owned = o.owned }) in
      (w', o', rw (register, e, d) refl)

  watch_refused :
      (w : World) (io : IoManager)
      → IsFresh env
      → Owned env none w
      → adds env fd event timeout w.io ≡ done (false, io)
      → (w' : World) × Owned env none w' × (watch env fd event timeout w ≡ refused w')
  unfolding watch arm
  watch_refused w io fresh o e = elim (Bool-cases (timeout == no_timeout)) [
    | inl t ↦ rw (watch, arm, t) (registered_refused none w io o e)
    | inr t ↦
        rw (watch, arm, t)
          (registered_refused (some (env.address w)) _ io
            (armed-Owned env fd event timeout w fresh o) e)
  ]

-- What connect_with_timeout answers at once, by what getsockopt returns and the error it tells.
abbrev pub Told : Sys → ℕ → Return → Type 0
Told (fails e) error r = r ≡ returns (fails e)
Told (gives n) zero r = r ≡ returns (gives 0)
Told (gives n) (suc k) r = r ≡ returns (fails (suc k))

so_error-Told :
    (option : Sys) (error : ℕ) (w : World)
    → Told option error (so_error option error w).0 × ((so_error option error w).1 ≡ w)
unfolding so_error
so_error-Told (fails e) error w = (refl, refl)
so_error-Told (gives n) zero w = (refl, refl)
so_error-Told (gives n) (suc k) w = (ground arith, refl)

waits_not :
    (env : Env) (fd timeout_ms error : ℕ) (round : Round) (option : Sys) (w w' : World)
    → watch env fd write_event timeout_ms w ≡ refused w'
    → after_connect env fd timeout_ms round (fails einprogress) option error w
      ≡ so_error option error w'
unfolding after_connect await_connect
waits_not env fd timeout_ms error round option w w' r = rw (after_connect, await_connect, r) refl

-- On an open socket that the program takes for blocking, where connect_f is in progress and
-- addEvent fails, connect_with_timeout leaves no timer of its own and answers at once, without
-- waiting: it fails with the error of getsockopt where that fails, and with the error that SO_ERROR
-- tells where there is one; with no error yet it returns 0, as if the socket were connected.
pub connect_unwatched :
    (env : Env) (c : FdCtx) (fd timeout_ms error : ℕ) (round : Round) (option : Sys) (w : World)
    (io : IoManager)
    → c.is_closed ≡ false
    → c.is_socket ≡ true
    → c.user_non_block ≡ false
    → IsFresh env
    → Owned env none w
    → adds env fd write_event timeout_ms w.io ≡ done (false, io)
    → (r : Return) × (w' : World) × Told option error r
      × Owned env none w'
      × (connect_with_timeout env true
            (some c)
            fd
            timeout_ms
            round
            (fails einprogress)
            option
            error
            w
          ≡ (r, w'))
unfolding connect_with_timeout
connect_unwatched env c fd timeout_ms error round option w io open_fd socket blocking fresh o e =
    let (w', o', r) = watch_refused env fd write_event timeout_ms w io fresh o e in
    let (told, same) = so_error-Told option error w' in
    (
      (so_error option error w').0,
      w',
      told,
      o',
      simp (open_fd, socket, blocking)
          (waits_not env fd timeout_ms error round option w w' r
            ∙ ap (λ (x : World). ((so_error option error w').0, x)) same),
    )
