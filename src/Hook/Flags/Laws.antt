-- ===== src/Hook/Flags/Laws.antt =====
-- What a program sees of the flags of its descriptors.
use Prim.Native.Nat.{zero, suc, bit_and, bit_or, bit_and-bitwise}
use native.Mathlib.Nat.{pow-suc, one-le-pow}
use cpp_linux_server_frame.Base.{
  ℕ, ◌≢◌, Option, none, refl, ◌+◌, ◌-◌, ◌*◌, ◌/◌, ◌%◌, ◌^◌, ◌<◌, ◌≡◌, ◌∙◌, sym, ap, Bool, true,
  false, some, if◌then◌else◌, Bool-cases, inl, inr, arith,
}
use cpp_linux_server_frame.Base.Bits.{bit_and_digit, bit_or_digit, bit_and-zero, bit_or-zero}
use cpp_linux_server_frame.FdManager.{FdCtx}
use cpp_linux_server_frame.Hook.Flags.{
  minus_one, o_nonblock, is_nonblock, with_nonblock, without_nonblock, StatusFlags, is_plain,
  fcntl_set, fcntl_get,
}

-- The bit O_NONBLOCK, and what stands above it.
abbrev high : ℕ → ℕ
high x = x / 2 / 2 / 2 / 2 / 2 / 2 / 2 / 2 / 2 / 2 / 2

abbrev bit : ℕ → ℕ
bit x = high x % 2

bit_and_ones : (k x : ℕ) → x < 2 ^ k → bit_and x (2 ^ k - 1) ≡ x
bit_and_ones zero x h = ground (arith, bit_and-bitwise 0 0)
bit_and_ones (suc k) x h =
    ground
      (arith, bit_and_digit x (2 ^ suc k - 1), bit_and_ones k (x / 2), pow-suc 2 k, one-le-pow k 2)

-- One digit, where the mask has a zero or a one.
and_zero_digit : (x m : ℕ) → bit_and x (m * 2) ≡ bit_and (x / 2) m * 2
and_zero_digit x m = omega (arith, bit_and_digit x (m * 2), ap (bit_and (x / 2)) (halves m))
  where
    halves : (m : ℕ) → m * 2 / 2 ≡ m
    halves m = omega arith

and_one_digit : (x m : ℕ) → bit_and x (m * 2 + 1) ≡ bit_and (x / 2) m * 2 + x % 2
and_one_digit x m = omega (arith, bit_and_digit x (m * 2 + 1), ap (bit_and (x / 2)) (halves m))
  where
    halves : (m : ℕ) → (m * 2 + 1) / 2 ≡ m
    halves m = omega arith

or_zero_digit : (x m : ℕ) → bit_or x (m * 2) ≡ bit_or (x / 2) m * 2 + x % 2
or_zero_digit x m = omega (arith, bit_or_digit x (m * 2), ap (bit_or (x / 2)) (halves m))
  where
    halves : (m : ℕ) → m * 2 / 2 ≡ m
    halves m = omega arith

or_one_digit : (x : ℕ) → bit_or x 1 ≡ bit_or (x / 2) 0 * 2 + 1
or_one_digit x = omega (arith, bit_or_digit x 1)

and_bit : (x : ℕ) → x < 2 ^ 32 → bit_and x 2048 ≡ bit x * 2048
and_bit x h = omega (
  arith,
  and_zero_digit x 1024,
  and_zero_digit (x / 2) 512,
  and_zero_digit (x / 2 / 2) 256,
  and_zero_digit (x / 2 / 2 / 2) 128,
  and_zero_digit (x / 2 / 2 / 2 / 2) 64,
  and_zero_digit (x / 2 / 2 / 2 / 2 / 2) 32,
  and_zero_digit (x / 2 / 2 / 2 / 2 / 2 / 2) 16,
  and_zero_digit (x / 2 / 2 / 2 / 2 / 2 / 2 / 2) 8,
  and_zero_digit (x / 2 / 2 / 2 / 2 / 2 / 2 / 2 / 2) 4,
  and_zero_digit (x / 2 / 2 / 2 / 2 / 2 / 2 / 2 / 2 / 2) 2,
  and_zero_digit (x / 2 / 2 / 2 / 2 / 2 / 2 / 2 / 2 / 2 / 2) 1,
  and_one_digit (x / 2 / 2 / 2 / 2 / 2 / 2 / 2 / 2 / 2 / 2 / 2) 0,
  bit_and-zero 32 (high x / 2) (omega arith),
)

or_bit : (x : ℕ) → x < 2 ^ 32 → bit_or x 2048 ≡ x + (1 - bit x) * 2048
or_bit x h = omega (
  arith,
  or_zero_digit x 1024,
  or_zero_digit (x / 2) 512,
  or_zero_digit (x / 2 / 2) 256,
  or_zero_digit (x / 2 / 2 / 2) 128,
  or_zero_digit (x / 2 / 2 / 2 / 2) 64,
  or_zero_digit (x / 2 / 2 / 2 / 2 / 2) 32,
  or_zero_digit (x / 2 / 2 / 2 / 2 / 2 / 2) 16,
  or_zero_digit (x / 2 / 2 / 2 / 2 / 2 / 2 / 2) 8,
  or_zero_digit (x / 2 / 2 / 2 / 2 / 2 / 2 / 2 / 2) 4,
  or_zero_digit (x / 2 / 2 / 2 / 2 / 2 / 2 / 2 / 2 / 2) 2,
  or_zero_digit (x / 2 / 2 / 2 / 2 / 2 / 2 / 2 / 2 / 2 / 2) 1,
  or_one_digit (high x),
  bit_or-zero 32 (high x / 2) (omega arith),
)

and_others : (x : ℕ) → x < 2 ^ 32 → bit_and x (2 ^ 32 - 1 - 2048) ≡ x - bit x * 2048
and_others x h = omega (
  arith,
  and_one_digit x 2147482623,
  and_one_digit (x / 2) 1073741311,
  and_one_digit (x / 2 / 2) 536870655,
  and_one_digit (x / 2 / 2 / 2) 268435327,
  and_one_digit (x / 2 / 2 / 2 / 2) 134217663,
  and_one_digit (x / 2 / 2 / 2 / 2 / 2) 67108831,
  and_one_digit (x / 2 / 2 / 2 / 2 / 2 / 2) 33554415,
  and_one_digit (x / 2 / 2 / 2 / 2 / 2 / 2 / 2) 16777207,
  and_one_digit (x / 2 / 2 / 2 / 2 / 2 / 2 / 2 / 2) 8388603,
  and_one_digit (x / 2 / 2 / 2 / 2 / 2 / 2 / 2 / 2 / 2) 4194301,
  and_one_digit (x / 2 / 2 / 2 / 2 / 2 / 2 / 2 / 2 / 2 / 2) 2097150,
  and_zero_digit (x / 2 / 2 / 2 / 2 / 2 / 2 / 2 / 2 / 2 / 2 / 2) 1048575,
  bit_and_ones 20 (high x / 2) (omega arith),
)

bit-one : (x : ℕ) → x < 2 ^ 32 → is_nonblock x ≡ true → bit x ≡ 1
unfolding is_nonblock
bit-one x h n = ground (arith, and_bit x h)

bit-zero : (x : ℕ) → x < 2 ^ 32 → is_nonblock x ≡ false → bit x ≡ 0
unfolding is_nonblock
bit-zero x h n = ground (arith, and_bit x h)

with-sum : (x : ℕ) → x < 2 ^ 32 → with_nonblock x ≡ x + (1 - bit x) * 2048
unfolding with_nonblock
with-sum x h = or_bit x h

with-lt : (x : ℕ) → x < 2 ^ 32 → with_nonblock x < 2 ^ 32
unfolding with_nonblock
with-lt x h = omega (arith, or_bit x h)

without-lt : (x : ℕ) → x < 2 ^ 32 → without_nonblock x < 2 ^ 32
unfolding without_nonblock
without-lt x h = omega (arith, and_others x h)

bit-with : (x : ℕ) → x < 2 ^ 32 → bit (with_nonblock x) ≡ 1
unfolding with_nonblock
bit-with x h = omega (arith, or_bit x h)

bit-without : (x : ℕ) → x < 2 ^ 32 → bit (without_nonblock x) ≡ 0
unfolding without_nonblock
bit-without x h = omega (arith, and_others x h)

without-with : (x : ℕ) → x < 2 ^ 32 → without_nonblock (with_nonblock x) ≡ without_nonblock x
unfolding without_nonblock
without-with x h =
    omega (
      arith,
      and_others x h,
      and_others (with_nonblock x) (with-lt x h),
      bit-with x h,
      with-sum x h,
    )

without-without : (x : ℕ) → x < 2 ^ 32 → without_nonblock (without_nonblock x) ≡ without_nonblock x
unfolding without_nonblock
without-without x h =
    omega (arith, and_others x h, and_others (without_nonblock x) (without-lt x h), bit-without x h)

is_nonblock-bit : (x : ℕ) → x < 2 ^ 32 → bit x ≡ 1 → is_nonblock x ≡ true
unfolding is_nonblock
is_nonblock-bit x h e = ground (arith, and_bit x h)

not-is_nonblock-bit : (x : ℕ) → x < 2 ^ 32 → bit x ≡ 0 → is_nonblock x ≡ false
unfolding is_nonblock
not-is_nonblock-bit x h e = ground (arith, and_bit x h)

-- Two numbers with the same other flags.
shown :
    (x y : ℕ)
    → x < 2 ^ 32
    → y < 2 ^ 32
    → without_nonblock y ≡ without_nonblock x
    → (if is_nonblock x then with_nonblock y else without_nonblock y) ≡ x
unfolding with_nonblock without_nonblock
shown x y h k e = elim (Bool-cases (is_nonblock x)) [
  | inl n ↦ rw n (omega (arith, or_bit y k, and_others y k, and_others x h, bit-one x h n))
  | inr n ↦ rw n (omega (arith, and_others y k, and_others x h, bit-zero x h n))
]

same_context : (c d : FdCtx) → some c ≡ some d → c ≡ d
same_context c d e = cc

abbrev passed : Bool → ℕ → ℕ
passed sys arg = if sys then with_nonblock arg else without_nonblock arg

passed-others :
    (sys : Bool) (arg : ℕ) → arg < 2 ^ 32 → without_nonblock (passed sys arg) ≡ without_nonblock arg
passed-others true arg h = without-with arg h
passed-others false arg h = without-without arg h

passed-nonblock : (sys : Bool) (arg : ℕ) → arg < 2 ^ 32 → is_nonblock (passed sys arg) ≡ sys
passed-nonblock true arg h = is_nonblock-bit (with_nonblock arg) (with-lt arg h) (bit-with arg h)
passed-nonblock false arg h =
    not-is_nonblock-bit (without_nonblock arg) (without-lt arg h) (bit-without arg h)

without-minus_one : without_nonblock minus_one ≡ minus_one - o_nonblock
unfolding without_nonblock
without-minus_one = refl

with-minus_one : with_nonblock minus_one ≡ minus_one
unfolding with_nonblock
with-minus_one = refl

module _ {S : Type 0} (ops : StatusFlags S) where
  -- F_SETFL with `a` succeeds in `s`, and F_GETFL after it.
  abbrev pub Works : S → ℕ → Type 0
  Works s a = ((ops.set_fl s a).0 ≡ true) × (ops.get_fl (ops.set_fl s a).1 ≢ minus_one)

  -- What F_SETFL with `arg` and with `given` leaves, in the flags that others read.
  read_back :
      (arg given : ℕ) (s : S)
      → Works s arg
      → Works s given
      → without_nonblock given ≡ without_nonblock arg
      → (if is_nonblock arg
          then with_nonblock (ops.get_fl (ops.set_fl s given).1)
          else without_nonblock (ops.get_fl (ops.set_fl s given).1))
        ≡ ops.get_fl (ops.set_fl s arg).1
  read_back arg given s wa wg e =
      ap
        (λ (b : Bool).
          if b
          then with_nonblock (ops.get_fl (ops.set_fl s given).1)
          else without_nonblock (ops.get_fl (ops.set_fl s given).1))
        (sym (ops.tells s arg wa.0 wa.1))
      ∙ shown (ops.get_fl (ops.set_fl s arg).1) (ops.get_fl (ops.set_fl s given).1)
          (ops.get_fl-lt (ops.set_fl s arg).1) (ops.get_fl-lt (ops.set_fl s given).1)
          (ops.others s given arg wg.0 wa.0 wg.1 wa.1 e)

  -- What F_GETFL of the hooks returns where the system's F_GETFL fails.
  abbrev pub failed_flags : Option FdCtx → ℕ
  failed_flags none = minus_one
  failed_flags (some c) =
      if is_plain c
      then minus_one
      else if c.user_non_block
      then minus_one
      else minus_one - o_nonblock

  fcntl_get_fails :
      (o : Option FdCtx) (s : S) → ops.get_fl s ≡ minus_one → fcntl_get ops o s ≡ failed_flags o
  unfolding fcntl_get
  fcntl_get_fails none s h = h
  fcntl_get_fails (some c) s h = elim (Bool-cases (is_plain c)) [
    | inl p ↦ rw p h
    | inr p ↦ elim (Bool-cases c.user_non_block) [
      | inl u ↦ rw p (rw u (ap with_nonblock h ∙ with-minus_one))
      | inr u ↦ rw p (rw u (ap without_nonblock h ∙ without-minus_one))
    ]
  ]

  abbrev pub after_set : Option FdCtx → ℕ → S → ℕ
  after_set o arg s = fcntl_get ops (fcntl_set ops o arg s).0 (fcntl_set ops o arg s).2

  -- For a descriptor that the table of descriptors knows or does not know and every `arg`: where the
  -- system's F_SETFL of `arg`, with O_NONBLOCK and without it, and the F_GETFL behind it succeed,
  -- F_SETFL of `arg` through the hooks succeeds and F_GETFL then tells what the system's own calls
  -- would tell, but on an open socket the system keeps O_NONBLOCK as the framework has set it,
  -- whatever `arg` says. Where the system's F_GETFL fails, that of the hooks returns -1, except on an
  -- open socket that the program takes for blocking, where it returns -1 without the bit O_NONBLOCK.
  pub fcntl_get-fcntl_set :
      (o : Option FdCtx) (arg : ℕ) (s : S)
      → arg < 2 ^ 32
      → ((b : ℕ) → without_nonblock b ≡ without_nonblock arg → Works s b)
      → ((fcntl_set ops o arg s).1 ≡ true)
        × (after_set o arg s ≡ ops.get_fl (ops.set_fl s arg).1)
        × ((c : FdCtx)
            → o ≡ some c
            → is_plain c ≡ false
            → is_nonblock (ops.get_fl (fcntl_set ops o arg s).2) ≡ c.sys_non_block)
        × ((t : S) → ops.get_fl t ≡ minus_one → fcntl_get ops o t ≡ failed_flags o)
  unfolding fcntl_get fcntl_set
  fcntl_get-fcntl_set o arg s h w = let r = set_then_get o w in (r.0, r.1, r.2, fcntl_get_fails o)
    where
      set_then_get :
          (o : Option FdCtx)
          → ((b : ℕ) → without_nonblock b ≡ without_nonblock arg → Works s b)
          → ((fcntl_set ops o arg s).1 ≡ true)
            × (after_set o arg s ≡ ops.get_fl (ops.set_fl s arg).1)
            × ((c : FdCtx)
                → o ≡ some c
                → is_plain c ≡ false
                → is_nonblock (ops.get_fl (fcntl_set ops o arg s).2) ≡ c.sys_non_block)
      set_then_get none w = ((w arg refl).0, refl, λ c e. cc)
      set_then_get (some c) w = elim (Bool-cases (is_plain c)) [
        | inl p ↦ simp (p) ((w arg refl).0, refl, λ d e g. cc)
        | inr p ↦
            let same = passed-others c.sys_non_block arg h in
            let works = w (passed c.sys_non_block arg) same in
            (
              simp (p) works.0,
              simp (p) (read_back arg (passed c.sys_non_block arg) s (w arg refl) works same),
              λ d e g.
                  simp (p) (
                    ops.tells s (passed c.sys_non_block arg) works.0 works.1
                    ∙ passed-nonblock c.sys_non_block arg h)
                  ∙ ap (λ (x : FdCtx). x.sys_non_block) (same_context c d e),
            )
      ]
