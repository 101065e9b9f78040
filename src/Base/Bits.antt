-- ===== src/Base/Bits.antt =====
-- Bit operations at variables as arithmetic: one binary digit at a time, then at every width.
use Prim.Native.Nat.{
  ℕ, zero, suc, ◌+◌, ◌-◌, ◌*◌, ◌/◌, ◌%◌, ◌^◌, ◌≤◌, ◌<◌, min, max, digits, bitwise, bit_and, bit_or,
  bit_xor, differ, bit_and-bitwise, bit_or-bitwise, bit_xor-bitwise,
}
use mathlib.Core.Path.{◌≡◌, refl, ap, ◌∙◌}
use native.Mathlib.Omega.{arith}
use native.Mathlib.Nat.{pow-suc, one-le-pow}

module _ (z : ℕ → ℕ) (f : ℕ → ℕ → ℕ) where
  -- One more unit of fuel than enough changes nothing, and so does any number of them.
  spare_digit : (a b n : ℕ) → a ≤ n → digits z f (suc n) a b ≡ digits z f n a b
  spare_digit zero b zero h = refl
  spare_digit (suc a) b zero h = absurd (omega arith)
  spare_digit zero b (suc n) h = refl
  spare_digit (suc a) b (suc n) h =
      ap (λ (t : ℕ). t * 2 + f (suc a % 2) (b % 2))
        (spare_digit (suc a / 2) (b / 2) n (omega arith))

  spare_digits : (k a b n : ℕ) → a ≤ n → digits z f (k + n) a b ≡ digits z f n a b
  spare_digits zero a b n h = ap (λ (t : ℕ). digits z f t a b) (omega arith)
  spare_digits (suc k) a b n h =
      let one_more : suc k + n ≡ suc (k + n) = omega arith in
      ap (λ (t : ℕ). digits z f t a b) one_more
      ∙ spare_digit a b (k + n) (omega arith)
      ∙ spare_digits k a b n h

  lowest_digit :
      (a b : ℕ)
      → bitwise z f (suc a) b ≡ bitwise z f (suc a / 2) (b / 2) * 2 + f (suc a % 2) (b % 2)
  lowest_digit a b =
      let half : ℕ = suc a / 2 in
      omega (
        arith,
        spare_digits (a - half) half (b / 2) half (omega arith),
        ap (λ (t : ℕ). digits z f t half (b / 2)) (the_rest a),
      )
    where
      the_rest : (a : ℕ) → (a - suc a / 2) + suc a / 2 ≡ a
      the_rest a = omega arith

pub bit_or_digit : (a b : ℕ) → bit_or a b ≡ bit_or (a / 2) (b / 2) * 2 + max (a % 2) (b % 2)
bit_or_digit zero b = simp bit_or-bitwise (omega arith)
bit_or_digit (suc a) b = simp bit_or-bitwise (lowest_digit (λ y. y) max a b)

pub bit_and_digit : (a b : ℕ) → bit_and a b ≡ bit_and (a / 2) (b / 2) * 2 + min (a % 2) (b % 2)
bit_and_digit zero b = simp bit_and-bitwise (omega arith)
bit_and_digit (suc a) b = simp bit_and-bitwise (lowest_digit (λ y. 0) min a b)

differ_bits : (a b : ℕ) → a < 2 → b < 2 → differ a b ≡ (a + b) % 2
differ_bits zero zero h k = refl
differ_bits zero (suc zero) h k = refl
differ_bits (suc zero) zero h k = refl
differ_bits (suc zero) (suc zero) h k = refl
differ_bits (suc (suc a)) b h k = absurd (omega arith)
differ_bits zero (suc (suc b)) h k = absurd (omega arith)
differ_bits (suc zero) (suc (suc b)) h k = absurd (omega arith)

pub bit_xor_digit : (a b : ℕ) → bit_xor a b ≡ bit_xor (a / 2) (b / 2) * 2 + (a + b) % 2
bit_xor_digit zero b = simp bit_xor-bitwise (omega arith)
bit_xor_digit (suc a) b = simp bit_xor-bitwise (
    omega (
      arith,
      lowest_digit (λ y. y) differ a b,
      differ_bits (suc a % 2) (b % 2) (omega arith) (omega arith),
    ))

-- Below `2 ^ k` the operations end after `k` digits.
pub bit_or-zero : (k a : ℕ) → a < 2 ^ k → bit_or a 0 ≡ a
bit_or-zero zero a h = ground (arith, bit_or-bitwise 0 0)
bit_or-zero (suc k) a h =
    omega (arith, bit_or_digit a 0, bit_or-zero k (a / 2) (omega (arith, pow-suc 2 k)))

pub bit_and-zero : (k a : ℕ) → a < 2 ^ k → bit_and a 0 ≡ 0
bit_and-zero zero a h = ground (arith, bit_and-bitwise 0 0)
bit_and-zero (suc k) a h =
    omega (arith, bit_and_digit a 0, bit_and-zero k (a / 2) (omega (arith, pow-suc 2 k)))

pub bit_xor-zero : (k a : ℕ) → a < 2 ^ k → bit_xor a 0 ≡ a
bit_xor-zero zero a h = ground (arith, bit_xor-bitwise 0 0)
bit_xor-zero (suc k) a h = ground (arith, bit_xor_digit a 0, bit_xor-zero k (a / 2), pow-suc 2 k)

-- `x ^ 0xff…f` of `k` bits is the complement of `x`.
pub bit_xor_ones : (k a : ℕ) → a < 2 ^ k → bit_xor a (2 ^ k - 1) ≡ 2 ^ k - 1 - a
bit_xor_ones zero a h = ground (arith, bit_xor-bitwise 0 0)
bit_xor_ones (suc k) a h =
    ground
      (arith, bit_xor_digit a (2 ^ suc k - 1), bit_xor_ones k (a / 2), pow-suc 2 k, one-le-pow k 2)

pub zero-bit_or : (b : ℕ) → bit_or 0 b ≡ b
zero-bit_or b = bit_or-bitwise 0 b

-- `x | y << k` is a sum when `x` fits the `k` low bits.
pub bit_or_fields : (k x y : ℕ) → x < 2 ^ k → bit_or x (y * 2 ^ k) ≡ x + y * 2 ^ k
bit_or_fields zero zero y h = omega (arith, zero-bit_or (y * 2 ^ 0))
bit_or_fields zero (suc x) y h = absurd (omega arith)
bit_or_fields (suc k) x y h = omega (
  arith,
  bit_or_digit x (y * 2 ^ suc k),
  pow-suc 2 k,
  ap (λ (t : ℕ). y * t) (pow-suc 2 k),
  ap (λ (t : ℕ). bit_or (x / 2) t) halved,
  bit_or_fields k (x / 2) y (omega (arith, pow-suc 2 k)),
)
  where
    halved : y * 2 ^ suc k / 2 ≡ y * 2 ^ k
    halved = omega (arith, ap (λ (t : ℕ). y * t) (pow-suc 2 k))

-- `x & 0x7f` and `x | 0x80` on the bytes of a variable-length number.
pub bit_and_one : (k x : ℕ) → x < 2 ^ k → bit_and x 1 ≡ x % 2
bit_and_one k x h = omega (arith, bit_and_digit x 1, bit_and-zero k (x / 2) (omega arith))

bit_and_seven : (k x : ℕ) → x < 2 ^ k → bit_and x 7 ≡ x % 8
bit_and_seven k x h =
    omega
      (arith, bit_and_digit x 7, bit_and_digit (x / 2) 3, bit_and_one k (x / 2 / 2) (omega arith))

pub bit_and_seven_bits : (k x : ℕ) → x < 2 ^ k → bit_and x 0x7f ≡ x % 128
bit_and_seven_bits k x h = omega (
  arith,
  bit_and_digit x 127,
  bit_and_digit (x / 2) 63,
  bit_and_digit (x / 2 / 2) 31,
  bit_and_digit (x / 2 / 2 / 2) 15,
  bit_and_seven k (x / 2 / 2 / 2 / 2) (omega arith),
)

pub bit_or_top_bit : (x : ℕ) → x < 128 → bit_or x 0x80 ≡ x + 128
bit_or_top_bit x h = bit_or_fields 7 x 1 h

pub bit_and_byte : (x : ℕ) → x < 256 → bit_and x 255 ≡ x
bit_and_byte x h = omega (arith, bit_and_digit x 255, bit_and_seven_bits 8 (x / 2) (omega arith))
