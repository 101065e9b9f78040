-- ===== src/Stream.antt =====
-- Stream::readFixSize and Stream::writeFixSize on a buffer (yuan/stream.h, yuan/stream.cc). The
-- virtual read and write are parameters of the code and fields of an interface with their laws.
pub mod Laws
pub mod OneByte
mod Tests
use cpp_linux_server_frame.Base.{
  ℕ, zero, suc, ◌+◌, ◌-◌, ◌≤◌, ◌<◌, ◌≡◌, List, [], ◌∷◌, ◌++◌, Option, none, some, length, take,
  drop,
}

-- What read returns: a positive number of bytes, which now stand in the buffer, or a number that is
-- not positive, here its negation.
pub data Got : Type 0 where
  bytes : ℕ → List ℕ → Got
  read_fails : ℕ → Got

-- What write returns: a positive number, here its predecessor, or the negation of another.
pub data Put : Type 0 where
  wrote : ℕ → Put
  write_fails : ℕ → Put

pub record ReadOps (S : Type 0) : Type 0 where
  -- read(buffer, length)
  pub read : S → ℕ → Got × S
  -- The bytes that are still to come.
  pub content : S → List ℕ
  pub read_at_most :
      (s : S) (n x : ℕ) (xs : List ℕ) (s' : S)
      → read s n ≡ (bytes x xs, s')
      → (suc (length xs) ≤ n) × (content s ≡ x ∷ (xs ++ content s'))

pub record WriteOps (S : Type 0) : Type 0 where
  -- write(buffer, length)
  pub write : S → List ℕ → Put × S
  -- The bytes that have been written.
  pub sent : S → List ℕ
  pub write_at_most :
      (s : S) (buffer : List ℕ) (k : ℕ) (s' : S)
      → write s buffer ≡ (wrote k, s')
      → (suc k ≤ length buffer) × (sent s' ≡ sent s ++ take (suc k) buffer)

-- How a loop ends: with all bytes, with the failed return value, or without fuel.
pub data Ended (A : Type 0) : Type 0 where
  all_of : A → Ended A
  stopped : ℕ → Ended A
  no_fuel : Ended A

module _ {S : Type 0} (ops : ReadOps S) where
  -- The loop, with the bytes that the buffer has so far.
  unfoldable pub read_rounds : ℕ → S → ℕ → List ℕ → Ended (List ℕ) × S
  read_rounds fuel s zero buffer = (all_of buffer, s)
  read_rounds zero s (suc left) buffer = (no_fuel, s)
  read_rounds (suc fuel) s (suc left) buffer =
      let (got, s') = ops.read s (suc left) in
      elim got [
        | read_fails e ↦ (stopped e, s')
        | bytes x xs ↦ read_rounds fuel s' (left - length xs) (buffer ++ (x ∷ xs))
      ]

  -- Each round reads a byte at least.
  unfoldable pub read_fix_size : S → ℕ → Ended (List ℕ) × S
  read_fix_size s length = read_rounds length s length []

module _ {S : Type 0} (ops : WriteOps S) where
  unfoldable pub write_rounds : ℕ → S → List ℕ → Ended (Unit {0}) × S
  write_rounds fuel s [] = (all_of tt, s)
  write_rounds zero s (x ∷ buffer) = (no_fuel, s)
  write_rounds (suc fuel) s (x ∷ buffer) =
      let (put, s') = ops.write s (x ∷ buffer) in
      elim put [ write_fails e ↦ (stopped e, s') | wrote k ↦ write_rounds fuel s' (drop k buffer) ]

  -- Each round writes a byte at least.
  unfoldable pub write_fix_size : S → List ℕ → Ended (Unit {0}) × S
  write_fix_size s buffer = write_rounds (length buffer) s buffer
