-- ===== src/ByteArray/Memory/Slices.antt =====
-- Bytes cut out of, and copied into, one run of memory.
use Prim.Native.Nat.add
use cpp_linux_server_frame.Base.{
  ℕ, zero, suc, ◌+◌, ◌≤◌, ◌≡◌, refl, ap, ◌∙◌, List, [], ◌∷◌, ◌++◌, max, length, take, drop,
  length-append, length-drop, append_assoc, arith,
}
use cpp_linux_server_frame.ByteArray.Memory.{copy_to}

module _ {ℓ} {A : Type ℓ} where
  drop-nil : (n : ℕ) → drop {A = A} n [] ≡ []
  drop-nil zero = refl
  drop-nil (suc n) = refl

  take-nil : (n : ℕ) → take {A = A} n [] ≡ []
  take-nil zero = refl
  take-nil (suc n) = refl

  pub drop-drop : (n k : ℕ) (xs : List A) → drop n (drop k xs) ≡ drop (k + n) xs
  drop-drop n zero xs = ap (λ (t : ℕ). drop t xs) (omega arith)
  drop-drop n (suc k) [] = rw (drop-nil n, drop-nil (suc k + n))
  drop-drop n (suc k) (x ∷ xs) = rw (add.suc k n) (drop-drop n k xs)

  pub drop-append_self : (xs ys : List A) → drop (length xs) (xs ++ ys) ≡ ys
  drop-append_self [] ys = refl
  drop-append_self (x ∷ xs) ys = drop-append_self xs ys

  pub take-append_self : (xs ys : List A) → take (length xs) (xs ++ ys) ≡ xs
  take-append_self [] ys = refl
  take-append_self (x ∷ xs) ys = ap (◌∷◌ x) (take-append_self xs ys)

  pub take-append_le : (n : ℕ) (xs ys : List A) → n ≤ length xs → take n (xs ++ ys) ≡ take n xs
  take-append_le zero xs ys h = refl
  take-append_le (suc n) [] ys h = absurd (omega arith)
  take-append_le (suc n) (x ∷ xs) ys h = ap (◌∷◌ x) (take-append_le n xs ys (omega arith))

  pub drop-append_le :
      (n : ℕ) (xs ys : List A) → n ≤ length xs → drop n (xs ++ ys) ≡ drop n xs ++ ys
  drop-append_le zero xs ys h = refl
  drop-append_le (suc n) [] ys h = absurd (omega arith)
  drop-append_le (suc n) (x ∷ xs) ys h = drop-append_le n xs ys (omega arith)

  pub drop-append_add : (xs ys : List A) (n : ℕ) → drop (length xs + n) (xs ++ ys) ≡ drop n ys
  drop-append_add [] ys n = ap (λ (t : ℕ). drop t ys) (omega arith)
  drop-append_add (x ∷ xs) ys n = rw (add.suc (length xs) n) (drop-append_add xs ys n)

  -- A slice is the slices of its two parts.
  pub take_add : (n k : ℕ) (xs : List A) → take (n + k) xs ≡ take n xs ++ take k (drop n xs)
  take_add zero k xs = ap (λ (t : ℕ). take t xs) (omega arith)
  take_add (suc n) k [] = rw (take-nil (suc n + k), take-nil k)
  take_add (suc n) k (x ∷ xs) = rw (add.suc n k) (ap (◌∷◌ x) (take_add n k xs))

  pub length-take_le : (n : ℕ) (xs : List A) → n ≤ length xs → length (take n xs) ≡ n
  length-take_le zero xs h = refl
  length-take_le (suc n) [] h = absurd (omega arith)
  length-take_le (suc n) (x ∷ xs) h = ap suc (length-take_le n xs (omega arith))

  pub take_all : (n : ℕ) (xs : List A) → length xs ≤ n → take n xs ≡ xs
  take_all zero [] h = refl
  take_all zero (x ∷ xs) h = absurd (omega arith)
  take_all (suc n) [] h = refl
  take_all (suc n) (x ∷ xs) h = ap (◌∷◌ x) (take_all n xs (omega arith))

  pub drop_all : (n : ℕ) (xs : List A) → length xs ≤ n → drop n xs ≡ []
  drop_all zero [] h = refl
  drop_all zero (x ∷ xs) h = absurd (omega arith)
  drop_all (suc n) [] h = refl
  drop_all (suc n) (x ∷ xs) h = drop_all n xs (omega arith)

  pub slice-take :
      (s p n : ℕ) (xs : List A) → p + n ≤ s → take n (drop p (take s xs)) ≡ take n (drop p xs)
  slice-take zero zero zero xs h = refl
  slice-take zero zero (suc n) xs h = absurd (omega arith)
  slice-take zero (suc p) n xs h = absurd (omega arith)
  slice-take (suc s) zero n [] h = refl
  slice-take (suc s) (suc p) n [] h = refl
  slice-take (suc s) zero zero (x ∷ xs) h = refl
  slice-take (suc s) zero (suc n) (x ∷ xs) h = ap (◌∷◌ x) (slice-take s 0 n xs (omega arith))
  slice-take (suc s) (suc p) n (x ∷ xs) h = slice-take s p n xs (omega arith)

pub length-copy_to :
    (m : List ℕ) (p : ℕ) (bytes : List ℕ)
    → p + length bytes ≤ length m
    → length (copy_to m p bytes) ≡ length m
length-copy_to m zero bytes h =
    omega (arith, length-append bytes (drop (length bytes) m), length-drop (length bytes) m)
length-copy_to [] (suc p) bytes h = absurd (omega arith)
length-copy_to (x ∷ m) (suc p) bytes h = ap suc (length-copy_to m p bytes (omega arith))

-- Copying into the first of two runs, and into the second.
pub copy_to-append_le :
    (n m : List ℕ) (p : ℕ) (bytes : List ℕ)
    → p + length bytes ≤ length n
    → copy_to (n ++ m) p bytes ≡ copy_to n p bytes ++ m
copy_to-append_le n m zero bytes h =
    rw (
      drop-append_le (length bytes) n m (omega arith),
      append_assoc bytes (drop (length bytes) n) m,
    )
copy_to-append_le [] m (suc p) bytes h = absurd (omega arith)
copy_to-append_le (x ∷ n) m (suc p) bytes h =
    ap (◌∷◌ x) (copy_to-append_le n m p bytes (omega arith))

pub copy_to-append_add :
    (n m : List ℕ) (p : ℕ) (bytes : List ℕ)
    → copy_to (n ++ m) (length n + p) bytes ≡ n ++ copy_to m p bytes
copy_to-append_add [] m p bytes = ap (λ (t : ℕ). copy_to m t bytes) (omega arith)
copy_to-append_add (x ∷ n) m p bytes =
    rw (add.suc (length n) p) (ap (◌∷◌ x) (copy_to-append_add n m p bytes))

-- Two copies, one behind the other, are one.
pub copy_to-copy_to :
    (m : List ℕ) (p : ℕ) (a b : List ℕ)
    → p ≤ length m
    → copy_to (copy_to m p a) (p + length a) b ≡ copy_to m p (a ++ b)
copy_to-copy_to m zero a b h =
    ap (λ (t : ℕ). copy_to (a ++ drop (length a) m) t b) (omega arith)
    ∙ copy_to-append_add a (drop (length a) m) 0 b
    ∙ rw (append_assoc a b, length-append a b, drop-drop (length b) (length a) m)
copy_to-copy_to [] (suc p) a b h = absurd (omega arith)
copy_to-copy_to (x ∷ m) (suc p) a b h =
    rw (add.suc p (length a)) (ap (◌∷◌ x) (copy_to-copy_to m p a b (omega arith)))

zero-max-suc : (n : ℕ) → max 0 (suc n) ≡ suc (max 0 n)
zero-max-suc n = omega arith

suc-max-suc : (s n : ℕ) → max (suc s) (suc n) ≡ suc (max s n)
suc-max-suc s n = omega arith

max-suc : (s p n : ℕ) → max (suc s) (suc p + n) ≡ suc (max s (p + n))
max-suc s p n = omega arith

take-overlay :
    (s : ℕ) (bytes m : List ℕ)
    → length bytes ≤ length m
    → take (max s (length bytes)) (bytes ++ drop (length bytes) m)
      ≡ bytes ++ drop (length bytes) (take s m)
take-overlay s [] m h = ap (λ (t : ℕ). take t m) (omega arith)
take-overlay s (x ∷ bytes) [] h = absurd (omega arith)
take-overlay zero (x ∷ bytes) (y ∷ m) h =
    rw (zero-max-suc (length bytes))
      (ap (◌∷◌ x) (rw (drop-nil (length bytes)) at (take-overlay 0 bytes m (omega arith))))
take-overlay (suc s) (x ∷ bytes) (y ∷ m) h =
    rw (suc-max-suc s (length bytes)) (ap (◌∷◌ x) (take-overlay s bytes m (omega arith)))

-- The first `s` bytes, grown where the copy reaches behind them, are the copy into the first `s`.
pub take-copy_to :
    (m : List ℕ) (s p : ℕ) (bytes : List ℕ)
    → p ≤ s
    → s ≤ length m
    → p + length bytes ≤ length m
    → take (max s (p + length bytes)) (copy_to m p bytes) ≡ copy_to (take s m) p bytes
take-copy_to m s zero bytes hp hs hb =
    ap (λ (t : ℕ). take (max s t) (bytes ++ drop (length bytes) m)) (omega arith)
    ∙ take-overlay s bytes m (omega arith)
take-copy_to [] s (suc p) bytes hp hs hb = absurd (omega arith)
take-copy_to (x ∷ m) zero (suc p) bytes hp hs hb = absurd (omega arith)
take-copy_to (x ∷ m) (suc s) (suc p) bytes hp hs hb =
    rw (max-suc s p (length bytes))
      (ap (◌∷◌ x) (take-copy_to m s p bytes (omega arith) (omega arith) (omega arith)))

-- What was copied is read back.
pub slice-copy_to :
    (m : List ℕ) (p : ℕ) (bytes : List ℕ)
    → p ≤ length m
    → take (length bytes) (drop p (copy_to m p bytes)) ≡ bytes
slice-copy_to m zero bytes h = take-append_self bytes (drop (length bytes) m)
slice-copy_to [] (suc p) bytes h = absurd (omega arith)
slice-copy_to (x ∷ m) (suc p) bytes h = slice-copy_to m p bytes (omega arith)
