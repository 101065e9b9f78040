-- ===== src/Base/Arith.antt =====
-- Division by a variable, and bytes cut out of lists.
use Prim.Native.Nat.{ℕ, ◌+◌, ◌*◌, ◌/◌, ◌%◌, ◌≤◌, ◌<◌}
use mathlib.Core.Path.{◌≡◌}
use native.Mathlib.Omega.{arith}
use native.Mathlib.Decide.{dec_lt}

pub div_unique : (b c k : ℕ) → k < b → (c * b + k) / b ≡ c
div_unique b c k h = grind arith

pub mod_unique : (b c k : ℕ) → k < b → (c * b + k) % b ≡ k
mod_unique b c k h = grind arith

pub mul_mono : (a m b : ℕ) → a ≤ m → a * b ≤ m * b
mul_mono a m b h = grind arith

pub le_of_mul : (a n b : ℕ) → 0 < b → a * b ≤ n * b → a ≤ n
le_of_mul a n b pos h = elim (dec_lt n a) [
  | yes p ↦ absurd (omega (arith, mul_mono (n + 1) a b (omega arith)))
  | no p ↦ omega arith
]
