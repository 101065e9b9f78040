-- ===== src/Fiber.antt =====
-- Fiber (yuan/fiber.h, yuan/fiber.cc): the states of a fiber and which fiber of a thread runs. A
-- fiber is named by its address. swapcontext is the C library's: a call of it that gives up control
-- ends the function, and what the other context does comes after it.
pub mod Laws
mod Tests
use cpp_linux_server_frame.Base.{
  ℕ, ◌+◌, ◌-◌, ◌%◌, ◌^◌, Bool, true, false, ◌&&◌, ◌||◌, not, Option, none, some, ◌==◌,
  if◌then◌else◌,
}

-- Fiber::State
pub data State : Type 0 where
  init hold ready exec term except : State

abbrev pub is_exec : State → Bool
is_exec exec = true
is_exec init = false
is_exec hold = false
is_exec ready = false
is_exec term = false
is_exec except = false

abbrev pub is_ready : State → Bool
is_ready ready = true
is_ready init = false
is_ready hold = false
is_ready exec = false
is_ready term = false
is_ready except = false

-- TERM or EXCEPT
abbrev pub is_over : State → Bool
is_over term = true
is_over except = true
is_over init = false
is_over hold = false
is_over ready = false
is_over exec = false

abbrev pub is_term : State → Bool
is_term term = true
is_term init = false
is_term hold = false
is_term ready = false
is_term exec = false
is_term except = false

abbrev pub is_init : State → Bool
is_init init = true
is_init hold = false
is_init ready = false
is_init exec = false
is_init term = false
is_init except = false

-- What makecontext is given.
pub data Entry : Type 0 where
  main_func caller_main_func : Entry

-- The stack is its size, or none for the main fiber of a thread.
pub record Fiber : Type 0 where
  pub id : ℕ
  pub stack : Option ℕ
  pub state : State
  pub cb : Option ℕ
  pub entry : Option Entry

pub data Checked (A : Type 0) : Type 0 where
  assertion : Checked A
  -- A null pointer is followed.
  null_pointer : Checked A
  done : A → Checked A

abbrev pub and_then : {A B : Type 0} → Checked A → (A → Checked B) → Checked B
and_then assertion f = assertion
and_then null_pointer f = null_pointer
and_then (done a) f = f a

abbrev pub checked : {A : Type 0} → Bool → A → Checked A
checked true a = done a
checked false a = assertion

-- Fiber::Fiber(cb, stackSize, use_caller); `config` is the value of fiber.stack_size, and `id` that
-- of s_fiber_id.
abbrev pub stack_of : ℕ → ℕ → ℕ
stack_of config stack_size = if stack_size == 0 then config else stack_size

unfoldable pub new_fiber : ℕ → ℕ → ℕ → Bool → ℕ → Fiber
new_fiber config id cb use_caller stack_size = record {
  id = id;
  stack = some (stack_of config stack_size);
  state = init;
  cb = some cb;
  entry = some (if use_caller then caller_main_func else main_func);
}

-- Fiber::Fiber(), the main fiber of a thread.
abbrev pub main_of_thread : Fiber
main_of_thread = record { id = 0; stack = none; state = exec; cb = none; entry = none }

abbrev pub is_some : {A : Type 0} → Option A → Bool
is_some none = false
is_some (some a) = true

-- Fiber::reset
unfoldable pub reset : Option ℕ → Fiber → Checked Fiber
reset cb f =
    checked (is_some f.stack && (is_over f.state || is_init f.state))
      (record f { entry = some main_func; cb = cb; state = init })

-- What swapIn and call do to the object.
unfoldable pub entered : Fiber → Checked Fiber
entered f = checked (not (is_exec f.state)) (record f { state = exec })

-- What MainFunc and CallerMainFunc do to the object once its callback has returned.
abbrev pub finished : Fiber → Fiber
finished f = record f { cb = none; state = term }

-- The fibers, and the thread's t_fiber and t_threadFiber, and the t_fiber of scheduler.cc.
pub record Thread : Type 0 where
  pub fibers : ℕ → Fiber
  pub this : Option ℕ
  pub thread_fiber : Option ℕ
  pub main_fiber : Option ℕ
  -- s_fiber_count
  pub fiber_count : ℕ

abbrev pub update : (ℕ → Fiber) → ℕ → Fiber → ℕ → Fiber
update fibers a f b = if a == b then f else fibers b

abbrev pub put : Thread → ℕ → Fiber → Thread
put t a f = record t { fibers = update t.fibers a f }

abbrev pub follow : {A : Type 0} → Option ℕ → (ℕ → Checked A) → Checked A
follow none f = null_pointer
follow (some m) f = f m

-- Fiber::swapIn
unfoldable pub swap_in : ℕ → Thread → Checked Thread
swap_in a t =
    and_then (entered (t.fibers a))
      (λ f. follow t.main_fiber (λ m. done (put (record t { this = some a }) a f)))

-- Fiber::swapOut
unfoldable pub swap_out : ℕ → Thread → Checked Thread
swap_out a t = follow t.main_fiber (λ m. done (if m == a then t else record t { this = some m }))

-- Fiber::call
unfoldable pub call : ℕ → Thread → Checked Thread
call a t =
    and_then (entered (t.fibers a))
      (λ f. follow t.thread_fiber (λ m. done (put (record t { this = some a }) a f)))

-- Fiber::back
unfoldable pub back : Thread → Checked Thread
back t = follow t.thread_fiber (λ m. done (record t { this = some m }))

-- Fiber::GetThis; `a` is the address that new returns for the main fiber of the thread.
unfoldable pub get_this : ℕ → Thread → ℕ × Thread
get_this a t = elim t.this [
  | none ↦ (
    a,
    put
        (record t {
          this = some a;
          thread_fiber = some a;
          fiber_count = (t.fiber_count + 1) % 2 ^ 64;
        })
        a main_of_thread,
  )
  | some b ↦ (b, t)
]

unfoldable pub get_fiber_id : Thread → ℕ
get_fiber_id t = elim t.this [ none ↦ 0 | some a ↦ (t.fibers a).id ]

abbrev pub set_state : State → ℕ → Thread → Thread
set_state s a t = put t a (record (t.fibers a) { state = s })

-- Fiber::YieldToHold and Fiber::YieldToReady
unfoldable pub yield_to_hold : ℕ → Thread → Checked Thread
yield_to_hold a t = let (cur, t') = get_this a t in swap_out cur (set_state hold cur t')

unfoldable pub yield_to_ready : ℕ → Thread → Checked Thread
yield_to_ready a t = let (cur, t') = get_this a t in swap_out cur (set_state ready cur t')

-- Fiber::MainFunc and Fiber::CallerMainFunc, from where the callback has returned.
unfoldable pub main_func_end : ℕ → Thread → Checked Thread
main_func_end a t =
    let (cur, t') = get_this a t in swap_out cur (put t' cur (finished (t'.fibers cur)))

unfoldable pub caller_main_func_end : ℕ → Thread → Checked Thread
caller_main_func_end a t =
    let (cur, t') = get_this a t in back (put t' cur (finished (t'.fibers cur)))

-- Fiber::~Fiber of the fiber at `a`.
unfoldable pub destroy : ℕ → Thread → Checked Thread
destroy a t =
    let f = t.fibers a in
    elim f.stack [
      | some n ↦
          checked (is_over f.state || is_init f.state)
            (record t { fiber_count = (t.fiber_count + (2 ^ 64 - 1)) % 2 ^ 64 })
      | none ↦
          checked (not (is_some f.cb) && is_exec f.state) (record t {
            fiber_count = (t.fiber_count + (2 ^ 64 - 1)) % 2 ^ 64;
            this = forget t.this;
          })
    ]
  where
    forget : Option ℕ → Option ℕ
    forget none = none
    forget (some b) = if b == a then none else some b
