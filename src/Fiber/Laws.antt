-- ===== src/Fiber/Laws.antt =====
-- Control comes back to the main fiber of the scheduler, and a fiber that has ended can be used again.
use cpp_linux_server_frame.Base.{
  ℕ, ◌≡◌, ◌≢◌, inl, inr, refl, ap, ◌∙◌, Bool, false, Option, some, ◌==◌, if◌then◌else◌, Bool-cases,
  arith,
}
use cpp_linux_server_frame.Fiber.{
  hold, ready, exec, is_exec, Fiber, Checked, done, and_then, entered, finished, Thread, update,
  put, follow, swap_in, swap_out, get_this, yield_to_hold, yield_to_ready, main_func_end,
}

pub update_self : (fibers : ℕ → Fiber) (a : ℕ) (f : Fiber) → update fibers a f a ≡ f
update_self fibers a f = ground arith

pub update_twice :
    (fibers : ℕ → Fiber) (a b : ℕ) (f g : Fiber)
    → update (update fibers a f) a g b ≡ update fibers a g b
update_twice fibers a b f g = ground arith

-- The thread after a fiber at `a` has run and given up control: nothing but the fiber has changed,
-- and the scheduler's main fiber runs.
pub record BackWith (t : Thread) (m a : ℕ) (f : Fiber) (r : Checked Thread) : Type 0 where
  pub after : Thread
  pub returns : r ≡ done after
  pub this : after.this ≡ some m
  pub fiber : after.fibers a ≡ f
  pub others : (b : ℕ) → b ≢ a → after.fibers b ≡ t.fibers b
  pub count : after.fiber_count ≡ t.fiber_count

abbrev pub running : Thread → ℕ → Thread
running t a = put (record t { this = some a }) a (record (t.fibers a) { state = exec })

swap_in-running :
    (t : Thread) (m a : ℕ)
    → t.main_fiber ≡ some m
    → is_exec (t.fibers a).state ≡ false
    → swap_in a t ≡ done (running t a)
unfolding swap_in entered
swap_in-running t m a e h =
    rw (swap_in, entered, h) (ap (λ (o : Option ℕ). follow o (λ _. done (running t a))) e)

module _ (t : Thread) (m a : ℕ) (main : t.main_fiber ≡ some m) (apart : m ≢ a) where
  other_main : (m == a) ≡ false
  other_main = elim (Bool-cases (m == a)) [ inl h ↦ absurd (apart (ground arith)) | inr h ↦ h ]

  after : Fiber → Thread
  after f = put (record (running t a) { this = some m }) a f

  swap_out-BackWith : (f : Fiber) → BackWith t m a f (swap_out a (put (running t a) a f))
  unfolding swap_out after
  swap_out-BackWith f = record {
    after = after f;
    returns =
        ap
          (λ (o : Option ℕ). follow o (λ n. done (
            if n == a
            then put (running t a) a f
            else put (record (running t a) { this = some n }) a f)))
          main
        ∙ ap (λ (b : Bool). done (if b then put (running t a) a f else after f)) other_main;
    this = refl;
    fiber = update_self (running t a).fibers a f;
    others = λ b n. ground arith;
    count = refl;
  }

-- Where the scheduler's main fiber `m` of the thread is another than the fiber at `a`, which is
-- not in EXEC, swapIn of `a` followed by YieldToHold, YieldToReady or the end of MainFunc
-- succeeds: `m` is the current fiber again, `a` is in HOLD, READY or, without its callback, in
-- TERM, and no other fiber has changed.
pub swap_in-BackWith :
    (t : Thread) (m a c : ℕ)
    → t.main_fiber ≡ some m
    → m ≢ a
    → is_exec (t.fibers a).state ≡ false
    → BackWith t m a
        (record (t.fibers a) { state = hold })
        (and_then (swap_in a t) (yield_to_hold c))
      × BackWith t m a
          (record (t.fibers a) { state = ready })
          (and_then (swap_in a t) (yield_to_ready c))
      × BackWith t m a (finished (t.fibers a)) (and_then (swap_in a t) (main_func_end c))
unfolding yield_to_hold yield_to_ready main_func_end get_this
swap_in-BackWith t m a c main apart h =
    let f : Fiber = record (t.fibers a) { state = exec } in
    rw
      (
        swap_in-running t m a main h,
        yield_to_hold,
        yield_to_ready,
        main_func_end,
        get_this,
        update_self t.fibers a f,
      )
      (
        swap_out-BackWith t m a main apart (record (t.fibers a) { state = hold }),
        swap_out-BackWith t m a main apart (record (t.fibers a) { state = ready }),
        swap_out-BackWith t m a main apart (finished (t.fibers a)),
      )
