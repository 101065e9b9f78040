-- ===== src/Hook/Flags.antt =====
-- fcntl, ioctl and setsockopt of yuan/hook.cc, which record what the program asks for and keep the
-- sockets non-blocking. The flags of a descriptor are an int that is not negative.
pub mod Laws
use Prim.Native.Nat.{bit_and, bit_or}
use cpp_linux_server_frame.Base.{
  ℕ, ◌≢◌, ◌+◌, ◌-◌, ◌*◌, ◌/◌, ◌%◌, ◌^◌, ◌<◌, ◌≡◌, Bool, true, false, ◌||◌, not, Option, none, some,
  ◌==◌, if◌then◌else◌,
}
use cpp_linux_server_frame.FdManager.{FdCtx, set_timeout}

abbrev pub o_nonblock : ℕ
o_nonblock = 0x800

-- `arg & O_NONBLOCK` as a condition, `arg | O_NONBLOCK`, `arg & (~O_NONBLOCK)`
unfoldable pub is_nonblock : ℕ → Bool
is_nonblock flags = not (bit_and flags o_nonblock == 0)

unfoldable pub with_nonblock : ℕ → ℕ
with_nonblock flags = bit_or flags o_nonblock

unfoldable pub without_nonblock : ℕ → ℕ
without_nonblock flags = bit_and flags (2 ^ 32 - 1 - o_nonblock)

-- What fcntl_f returns where it fails: -1, as an unsigned int
abbrev pub minus_one : ℕ
minus_one = 2 ^ 32 - 1

-- fcntl_f with F_SETFL and F_GETFL on the state of the system; either may fail. Where both succeed,
-- F_GETFL tells O_NONBLOCK as it was set, and the other flags that it tells do not depend on it.
pub record StatusFlags (S : Type 0) : Type 0 where
  -- Whether F_SETFL succeeds, and what it leaves.
  pub set_fl : S → ℕ → Bool × S
  pub get_fl : S → ℕ
  pub get_fl-lt : (s : S) → get_fl s < 2 ^ 32
  pub tells :
      (s : S) (a : ℕ)
      → (set_fl s a).0 ≡ true
      → get_fl (set_fl s a).1 ≢ minus_one
      → is_nonblock (get_fl (set_fl s a).1) ≡ is_nonblock a
  pub others :
      (s : S) (a b : ℕ)
      → (set_fl s a).0 ≡ true
      → (set_fl s b).0 ≡ true
      → get_fl (set_fl s a).1 ≢ minus_one
      → get_fl (set_fl s b).1 ≢ minus_one
      → without_nonblock a ≡ without_nonblock b
      → without_nonblock (get_fl (set_fl s a).1) ≡ without_nonblock (get_fl (set_fl s b).1)

-- The condition under which fcntl and ioctl go to the system as they are.
abbrev pub is_plain : FdCtx → Bool
is_plain c = c.is_closed || not c.is_socket

module _ {S : Type 0} (ops : StatusFlags S) where
  -- fcntl with F_SETFL, where FdMgr's get returns the context of a descriptor: the context, and what
  -- fcntl_f makes of it
  unfoldable pub fcntl_set : Option FdCtx → ℕ → S → Option FdCtx × Bool × S
  fcntl_set none arg s = let r = ops.set_fl s arg in (none, r.0, r.1)
  fcntl_set (some c) arg s =
      let passed = if c.sys_non_block then with_nonblock arg else without_nonblock arg in
      let r = ops.set_fl s (if is_plain c then arg else passed) in
      (
        if is_plain c then some c else some (record c { user_non_block = is_nonblock arg }),
        r.0,
        r.1,
      )

  -- fcntl with F_GETFL
  unfoldable pub fcntl_get : Option FdCtx → S → ℕ
  fcntl_get none s = ops.get_fl s
  fcntl_get (some c) s =
      if is_plain c
      then ops.get_fl s
      else if c.user_non_block
      then with_nonblock (ops.get_fl s)
      else without_nonblock (ops.get_fl s)

-- ioctl with FIONBIO: what it records, and the argument that it passes on.
unfoldable pub ioctl_nonblock : Option FdCtx → ℕ → Option FdCtx × ℕ
ioctl_nonblock none arg = (none, arg)
ioctl_nonblock (some c) arg =
    if is_plain c
    then (some c, arg)
    else (some (record c { user_non_block = not (arg == 0) }), if c.sys_non_block then 1 else 0)

-- setsockopt with SOL_SOCKET and SO_RCVTIMEO or SO_SNDTIMEO of a timeval; times are uint64_t.
unfoldable pub setsockopt_timeout : Bool → Option FdCtx → Bool → ℕ → ℕ → Option FdCtx
setsockopt_timeout hook_enable none recv sec usec = none
setsockopt_timeout hook_enable (some c) recv sec usec =
    if hook_enable then some (set_timeout c recv ((sec * 1000 + usec / 1000) % 2 ^ 64)) else some c
