-- ===== src/Hook/Waiting.antt =====
-- The answers that do_io waits for, and the timer of a call until it sleeps.
use cpp_linux_server_frame.Base.{
  ℕ, suc, ◌≡◌, ◌≢◌, inl, inr, refl, ap, sym, ◌∙◌, Bool, true, false, ◌||◌, List, [], ◌∷◌, Option,
  none, some, ◌==◌, if◌then◌else◌, Bool-cases, branch, arith,
}
use cpp_linux_server_frame.IoManager.{Event, Checked, assertion, out_of_bounds, done, IoManager}
use cpp_linux_server_frame.IoManager.Add.{add_event}
use cpp_linux_server_frame.Timer.{
  Callback, on_timer, TimerManager, returned, cancel, add_condition_timer, add_timer, add_locked,
}
use cpp_linux_server_frame.Timer.Order.{In}
use cpp_linux_server_frame.Timer.Laws.{IsValid, cancel-Cancelled, same_or_not}
use cpp_linux_server_frame.Timer.Waiting.{operations-IsValid}
use cpp_linux_server_frame.Hook.{
  Sys, gives, fails, eintr, eagain, no_timeout, World, Env, Round, uninterrupted, has_timer, disarm,
  Watched, asleep, refused, broken, arm, register, watch,
}

-- The first answer that is neither EINTR nor EAGAIN, and the number of EAGAIN before it.
pub final : List Sys → Option Sys
final [] = none
final (gives n ∷ l) = some (gives n)
final (fails e ∷ l) = if e == eintr || e == eagain then final l else some (fails e)

pub eagains : List Sys → ℕ
eagains [] = 0
eagains (gives n ∷ l) = 0
eagains (fails e ∷ l) =
    let rest = eagains l in if e == eintr then rest else if e == eagain then suc rest else 0

abbrev pub Next : List Sys → Option (Sys × List Sys) → Type 0
Next l none = final l ≡ none
Next l (some (gives n, left)) = final l ≡ some (gives n)
Next l (some (fails e, left)) =
    ((e == eagain) ≡ true → (final l ≡ final left) × (eagains l ≡ suc (eagains left)))
    × ((e == eagain) ≡ false → final l ≡ some (fails e))

interrupted-Next :
    (e : ℕ) (l : List Sys) (o : Option (Sys × List Sys))
    → (e == eintr) ≡ true
    → Next l o
    → Next (fails e ∷ l) o
unfolding final eagains
interrupted-Next e l none h p = rw h p
interrupted-Next e l (some (gives n, left)) h p = rw h p
interrupted-Next e l (some (fails d, left)) h p = rw h p

pub uninterrupted-Next : (l : List Sys) → Next l (uninterrupted l)
unfolding uninterrupted final eagains
uninterrupted-Next [] = refl
uninterrupted-Next (gives n ∷ l) = refl
uninterrupted-Next (fails e ∷ l) =
    branch (Next (fails e ∷ l)) (e == eintr) (uninterrupted l) (some (fails e, l))
      (λ h. interrupted-Next e l (uninterrupted l) h (uninterrupted-Next l))
      (λ h. ((λ a. (ground arith, ground arith)), (λ a. ground arith)))

-- The callback of the timer of this call.
abbrev pub mine : Env → Callback
mine env = on_timer env.tinfo env.timeout_cb

-- The timers are valid, and only the timer `t` has the callback of this call.
pub record Owned (env : Env) (t : Option ℕ) (w : World) : Type 0 where
  pub valid : IsValid w.timers
  pub owned : (b : ℕ) → (w.timers.store b).cb ≡ some (mine env) → t ≡ some b

-- `new` returns the address of no timer in the set.
abbrev pub IsFresh : Env → Type 0
IsFresh env = (w : World) → In (env.address w) w.timers.timers → ⊥

-- What others do keeps the timers valid and sets no timer with the callback of this call.
pub record IsQuiet (env : Env) (r : Round) : Type 0 where
  pub valid : (w : World) → IsValid w.timers → IsValid (r.meanwhile w).timers
  pub not_ours :
      (w : World) (b : ℕ)
      → ((r.meanwhile w).timers.store b).cb ≡ some (mine env)
      → (w.timers.store b).cb ≡ some (mine env)

abbrev pub AllQuiet : Env → List Round → Type 0
AllQuiet env [] = Unit {0}
AllQuiet env (r ∷ l) = IsQuiet env r × AllQuiet env l

abbrev pub any_timed_out : List Round → Bool
any_timed_out [] = false
any_timed_out (r ∷ l) = r.timed_out || any_timed_out l

cancel-others :
    (m : TimerManager) (a b : ℕ) (r : Bool × TimerManager)
    → cancel m a ≡ returned r
    → a ≢ b
    → r.1.store b ≡ m.store b
unfolding cancel
cancel-others m a b r h n = ground arith

pub disarm-Owned :
    (env : Env) (t : Option ℕ) (w : World)
    → Owned env t w
    → (w' : World) × (disarm t w ≡ some w') × (w'.io ≡ w.io) × Owned env none w'
unfolding disarm
disarm-Owned env none w o = (w, refl, refl, o)
disarm-Owned env (some a) w o =
    let c = cancel-Cancelled w.timers a o.valid in
    (
      record w { timers = c.after },
      rw (disarm, c.returns) refl,
      refl,
      record {
        valid = c.valid;
        owned = λ b h. elim (same_or_not a b) [
          | inl e ↦
              absurd (none_some (sym (ap (λ (x : ℕ). (c.after.store x).cb) e ∙ h) ∙ c.disarmed))
          | inr n ↦ absurd (
              n (
                some_eq (
                  o.owned b
                    (ap (λ (x : _). x.cb) (sym (cancel-others w.timers a b _ c.returns n)) ∙ h))))
        ];
      },
    )
  where
    none_some : {x : Callback} → some x ≡ none → ⊥
    none_some h = cc

    some_eq : {x y : ℕ} → some x ≡ some y → x ≡ y
    some_eq h = cc

module _ (env : Env) (fd : ℕ) (event : Event) (timeout : ℕ) where
  abbrev pub adds : IoManager → Checked (Bool × IoManager)
  adds io = add_event env.epoll_ctl io fd event none env.caller

  pub data Fails (io : IoManager) : Type 0 where
    by_assertion : adds io ≡ assertion → Fails io
    by_bounds : adds io ≡ out_of_bounds → Fails io

  abbrev pub Watch : Watched → Type 0
  Watch (asleep t w) = Owned env t w × (has_timer t ≡ true → timeout ≢ no_timeout)
  Watch (refused w) = Owned env none w × ((io : IoManager) × (adds io ≡ done (false, w.io)))
  Watch broken = (io : IoManager) × Fails io

  pub armed-Owned :
      (w : World)
      → IsFresh env
      → Owned env none w
      → Owned env (some (env.address w)) (record w {
        timers =
            add_condition_timer
              (env.now w)
              (env.address w)
              timeout
              env.timeout_cb
              env.tinfo
              false
              w.timers;
      })
  unfolding add_condition_timer add_timer add_locked
  armed-Owned w fresh o = record {
    valid =
        (operations-IsValid (env.now w) (env.address w) timeout (some (mine env)) false w.timers
            o.valid).2
          (fresh w);
    owned = λ b h. elim (same_or_not (env.address w) b) [
      | inl e ↦ ap some e
      | inr n ↦ absurd (none_some (o.owned b (ground arith)))
    ];
  }
    where
      none_some : {x : ℕ} → none ≡ some x → ⊥
      none_some h = cc

  registered-Watch :
      (t : Option ℕ) (w : World)
      → Owned env t w
      → (has_timer t ≡ true → timeout ≢ no_timeout)
      → (r : Checked (Bool × IoManager)) → adds w.io ≡ r
      → Watch (register env fd event timeout t w)
  unfolding register
  registered-Watch t w o h assertion e = rw (register, e) (w.io, by_assertion e)
  registered-Watch t w o h out_of_bounds e = rw (register, e) (w.io, by_bounds e)
  registered-Watch t w o h (done (true, io)) e =
      rw (register, e) (record { valid = o.valid; owned = o.owned }, h)
  registered-Watch t w o h (done (false, io)) e =
      let (w', d, same, o') =
        disarm-Owned env t (record w { io = io }) (record { valid = o.valid; owned = o.owned }) in
      rw (register, e) (rw d (o', (w.io, e ∙ ap (λ (x : IoManager). done (false, x)) (sym same))))

  pub watch-Watch :
      (w : World) → IsFresh env → Owned env none w → Watch (watch env fd event timeout w)
  unfolding watch arm
  watch-Watch w fresh o = elim (Bool-cases (timeout == no_timeout)) [
    | inl e ↦ rw (watch, arm, e) (registered-Watch none w o (λ h. cc) (adds w.io) refl)
    | inr n ↦
        rw (watch, arm, n)
          (registered-Watch (some (env.address w)) _ (armed-Owned w fresh o) (λ _ h. ground arith)
            (adds w.io) refl)
  ]
