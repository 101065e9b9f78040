-- ===== src/Hook/Ends.antt =====
-- How do_io ends on a socket that the program takes for blocking, and that it leaves no timer.
use cpp_linux_server_frame.Base.{
  ℕ, suc, ◌<◌, ◌≡◌, ◌≢◌, ◌⊎◌, inl, inr, refl, ◌∙◌, Bool, true, false, ◌&&◌, List, [], ◌∷◌, Option,
  none, some, ◌==◌, length, Bool-cases, branch, arith,
}
use cpp_linux_server_frame.FdManager.{FdCtx, get_timeout}
use cpp_linux_server_frame.IoManager.{Event, done, IoManager}
use cpp_linux_server_frame.Hook.{
  Sys, gives, fails, eagain, no_timeout, World, Env, Round, Return, returns, times_out, unwatched,
  aborts, starved, uninterrupted, has_timer, Watched, asleep, refused, broken, watch, resume,
  attempt, attempts, do_io,
}
use cpp_linux_server_frame.Hook.Waiting.{
  final, eagains, Next, uninterrupted-Next, Owned, IsFresh, IsQuiet, AllQuiet, any_timed_out,
  disarm-Owned, adds, Fails, Watch, watch-Watch,
}

module _ (env : Env) (fd : ℕ) (event : Event) (timeout : ℕ) where
  -- How a call ends, with `rounds` to sleep and the answers `l` to come.
  pub data Ends (rounds : List Round) (l : List Sys) : Return → World → Type 0 where
    answered :
        (s : Sys) (w : World) → final l ≡ some s → Owned env none w → Ends rounds l (returns s) w
    late :
        (w : World)
        → timeout ≢ no_timeout
        → any_timed_out rounds ≡ true
        → Owned env none w
        → Ends rounds l times_out w
    not_added :
        (w : World) (io : IoManager)
        → adds env fd event timeout io ≡ done (false, w.io)
        → Owned env none w
        → Ends rounds l unwatched w
    failed :
        (w : World) (io : IoManager)
        → Fails env fd event timeout io
        → Owned env none w
        → Ends rounds l aborts w
    waits : (w : World) → (final l ≡ none) ⊎ (length rounds < eagains l) → Ends rounds l starved w

  abbrev EndsAt : List Round → List Sys → Return × World → Type 0
  EndsAt rounds l r = Ends rounds l r.0 r.1

  abbrev Later : List Sys → List Sys → Type 0
  Later l left = (final l ≡ final left) × (eagains l ≡ suc (eagains left))

  Ends-later :
      (round : Round) (rounds : List Round) (l left : List Sys) (r : Return) (w : World)
      → Later l left
      → Ends rounds left r w
      → Ends (round ∷ rounds) l r w
  Ends-later round rounds l left r v h (answered s w e o) = answered s w (h.0 ∙ e) o
  Ends-later round rounds l left r v h (late w n t o) = late w n (ground arith) o
  Ends-later round rounds l left r v h (not_added w io e o) = not_added w io e o
  Ends-later round rounds l left r v h (failed w io e o) = failed w io e o
  Ends-later round rounds l left r v h (waits w (inl e)) = waits w (inl (h.0 ∙ e))
  Ends-later round rounds l left r v h (waits w (inr lt)) = waits w (inr (omega (arith, h.1)))

  module _ (fresh : IsFresh env) where
    watched-Ends :
        (wake : List Sys → Option ℕ → World → Return × World) (rounds : List Round)
        (l left : List Sys) (w : World) (x : Watched)
        → Owned env none w
        → Watch env fd event timeout x
        → ((t : Option ℕ) (w' : World)
            → Owned env t w'
            → (has_timer t ≡ true → timeout ≢ no_timeout)
            → EndsAt rounds l (wake left t w'))
        → EndsAt rounds l (elim x [
          | asleep timer w' ↦ wake left timer w'
          | refused w' ↦ (unwatched, w')
          | broken ↦ (aborts, w)
        ])
    watched-Ends wake rounds l left w (asleep t w') o h k = k t w' h.0 h.1
    watched-Ends wake rounds l left w (refused w') o h k = not_added w' h.1.0 h.1.1 h.0
    watched-Ends wake rounds l left w broken o h k = failed w h.0 h.1 o

    attempt-Ends :
        (wake : List Sys → Option ℕ → World → Return × World) (rounds : List Round) (l : List Sys)
        (w : World)
        → Owned env none w
        → ((left : List Sys) (t : Option ℕ) (w' : World)
            → Later l left
            → Owned env t w'
            → (has_timer t ≡ true → timeout ≢ no_timeout)
            → EndsAt rounds l (wake left t w'))
        → (o : Option (Sys × List Sys)) → uninterrupted l ≡ o
        → Next l o
        → EndsAt rounds l (attempt env fd event timeout wake l w)
    unfolding attempt
    attempt-Ends wake rounds l w o k none e n = rw (attempt, e) (waits w (inl n))
    attempt-Ends wake rounds l w o k (some (gives a, left)) e n =
        rw (attempt, e) (answered (gives a) w n o)
    attempt-Ends wake rounds l w o k (some (fails a, left)) e n = elim (Bool-cases (a == eagain)) [
      | inl again ↦
          rw (attempt, e)
            (rw again (
              watched-Ends wake rounds l left w (watch env fd event timeout w) o
                (watch-Watch env fd event timeout w fresh o) (λ t w'. k left t w' (n.0 again))))
      | inr other ↦ rw (attempt, e) (rw other (answered (fails a) w (n.1 other) o))
    ]

    resumed-Ends :
        (retry : List Sys → World → Return × World) (round : Round) (rounds : List Round)
        (l left : List Sys) (t : Option ℕ) (w : World)
        → IsQuiet env round
        → Later l left
        → Owned env t w
        → (has_timer t ≡ true → timeout ≢ no_timeout)
        → ((w' : World) → Owned env none w' → EndsAt rounds left (retry left w'))
        → EndsAt (round ∷ rounds) l (resume env fd event timeout retry round left t w)
    unfolding resume
    resumed-Ends retry round rounds l left t w q h o timed k =
        let (w', d, same, o') =
          disarm-Owned env t (round.meanwhile w)
            (record { valid = q.valid w o.valid; owned = λ b e. o.owned b (q.not_ours w b e) }) in
        rw (resume, d)
          (branch (EndsAt (round ∷ rounds) l) (round.timed_out && has_timer t) (times_out, w')
            (retry left w') (λ c. late w' (timed (ground arith)) (ground arith) o')
            (λ _. Ends-later round rounds l left _ _ h (k w' o')))

    pub attempts-Ends :
        (rounds : List Round) (l : List Sys) (w : World)
        → AllQuiet env rounds
        → Owned env none w
        → EndsAt rounds l (attempts env fd event timeout rounds l w)
    unfolding attempts
    attempts-Ends [] l w q o =
        attempt-Ends (λ left timer w'. (starved, w')) [] l w o
          (λ left t w' h o' timed. waits w' (inr (omega (arith, h.1)))) (uninterrupted l) refl
          (uninterrupted-Next l)
    attempts-Ends (round ∷ rounds) l w q o =
        attempt-Ends (resume env fd event timeout (attempts env fd event timeout rounds) round)
          (round ∷ rounds) l w o
          (λ left t w' h o' timed.
            resumed-Ends (attempts env fd event timeout rounds) round rounds l left t w' q.0 h o'
              timed (λ w'' o''. attempts-Ends rounds left w'' q.1 o''))
          (uninterrupted l) refl (uninterrupted-Next l)

-- On a hooked call for an open socket that the program has not made non-blocking, do_io waits
-- only while the system has no answer but EINTR and EAGAIN, or the fiber is run again less often
-- than there are EAGAIN. It returns the first answer that is neither, or -1 with ETIMEDOUT where
-- there is a timeout and its timer has run, or -1 where addEvent fails, or addEvent aborts. However
-- it ends, the timers are valid and none of them has the callback of this call.
pub do_io-Ends :
    (env : Env) (c : FdCtx) (fd : ℕ) (event : Event) (recv : Bool) (rounds : List Round)
    (l : List Sys) (w : World)
    → c.is_closed ≡ false
    → c.is_socket ≡ true
    → c.user_non_block ≡ false
    → IsFresh env
    → AllQuiet env rounds
    → Owned env none w
    → Ends env fd event
        (get_timeout c recv)
        rounds
        l
        (do_io env true (some c) fd event recv rounds l w).0
        (do_io env true (some c) fd event recv rounds l w).1
unfolding do_io
do_io-Ends env c fd event recv rounds l w open_fd socket blocking fresh q o =
    simp (do_io, open_fd, socket, blocking)
      (attempts-Ends env fd event (get_timeout c recv) fresh rounds l w q o)
