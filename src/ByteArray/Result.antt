-- ===== src/ByteArray/Result.antt =====
-- How a member function of ByteArray ends, and the state monad over the object.

-- `out_of_range` is the exception that the code throws. `fault` is no C++ value: the code has
-- followed a null pointer.
pub data Result {ℓ} (A : Type ℓ) : Type ℓ where
  out_of_range fault : Result A
  ok : A → Result A

infixl 5 ◌>>=◌
abbrev pub ◌>>=◌ {ℓ κ} : {A : Type ℓ} {B : Type κ} → Result A → (A → Result B) → Result B
m >>= f = elim m [ ok a ↦ f a | out_of_range ↦ out_of_range | fault ↦ fault ]
