-- ===== src/Stream/OneByte.antt =====
-- A stream that moves one byte at a time, for the tests.
use cpp_linux_server_frame.Base.{
  ℕ, zero, suc, ◌≤◌, ◌≡◌, ap, sym, List, [], ◌∷◌, ◌++◌, length, take, arith,
}
use cpp_linux_server_frame.Stream.{
  Got, bytes, read_fails, Put, wrote, write_fails, ReadOps, WriteOps,
}

-- The state is what is to come, or what has been written.
abbrev pub take_one : List ℕ → ℕ → Got × List ℕ
take_one [] n = (read_fails 0, [])
take_one (x ∷ rest) zero = (read_fails 0, x ∷ rest)
take_one (x ∷ rest) (suc n) = (bytes x [], rest)

abbrev pub put_one : List ℕ → List ℕ → Put × List ℕ
put_one s [] = (write_fails 0, s)
put_one s (x ∷ buffer) = (wrote 0, s ++ (x ∷ []))

abbrev back : Got × List ℕ → List ℕ
back (bytes x xs, s) = x ∷ (xs ++ s)
back (read_fails e, s) = s

abbrev size : Got × List ℕ → ℕ
size (bytes x xs, s) = suc (length xs)
size (read_fails e, s) = 0

pub take_one_lem :
    (s : List ℕ) (n x : ℕ) (xs : List ℕ) (s' : List ℕ)
    → take_one s n ≡ (bytes x xs, s')
    → (suc (length xs) ≤ n) × (s ≡ x ∷ (xs ++ s'))
take_one_lem [] n x xs s' e = absurd (omega (arith, ap size e))
take_one_lem (y ∷ s) zero x xs s' e = absurd (omega (arith, ap size e))
take_one_lem (y ∷ s) (suc n) x xs s' e = (omega (arith, ap size e), ap back e)

abbrev count_of : Put × List ℕ → ℕ
count_of (wrote k, s) = suc k
count_of (write_fails e, s) = 0

pub put_one_lem :
    (s buffer : List ℕ) (k : ℕ) (s' : List ℕ)
    → put_one s buffer ≡ (wrote k, s')
    → (suc k ≤ length buffer) × (s' ≡ s ++ take (suc k) buffer)
put_one_lem s [] k s' e = absurd (omega (arith, ap count_of e))
put_one_lem s (x ∷ buffer) zero s' e = (omega arith, sym (ap (λ (p : Put × List ℕ). p.1) e))
put_one_lem s (x ∷ buffer) (suc k) s' e = absurd (omega (arith, ap count_of e))

abbrev pub reader : ReadOps (List ℕ)
reader = record { read = take_one; content = λ s. s; read_at_most = take_one_lem }

abbrev pub writer : WriteOps (List ℕ)
writer = record { write = put_one; sent = λ s. s; write_at_most = put_one_lem }
