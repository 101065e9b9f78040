-- ===== src/ByteArray/Codec/Varint.antt =====
-- writeUint32/64 and readUint32/64, writeInt32/64 and readInt32/64: integers of variable length.
use Prim.Native.Nat.{bit_and, bit_or}
use native.Mathlib.Nat.{pow-suc, div-add-mod, mod-eq_of_lt}
use native.Mathlib.Numerals.{towards_suc}
use cpp_linux_server_frame.Base.{
  ℕ, zero, suc, ◌+◌, ◌*◌, ◌/◌, ◌%◌, ◌^◌, ◌<◌, ◌≤◌, ◌≡◌, ap, sym, subst, mul_mono, ◌∙◌, List, [],
  ◌∷◌, ◌++◌, length, arith, append-nil, false, Bool-cases, inl, inr, ltb, leb, lt→ltb,
  if◌then◌else◌, some,
}
use cpp_linux_server_frame.Base.Bits.{bit_and_seven_bits, bit_or_top_bit, bit_or_fields}
use cpp_linux_server_frame.ByteArray.Result.{ok}
use cpp_linux_server_frame.ByteArray.Memory.{ByteArray}
use cpp_linux_server_frame.ByteArray.Memory.Layout.{IsValid}
use cpp_linux_server_frame.ByteArray.Memory.Access.{Wrote, write-Wrote}
use cpp_linux_server_frame.ByteArray.Codec.{
  of_le, varint, read_fuint8, read_varint, write_uint32, write_uint64, read_uint32, read_uint64,
  write_int32, write_int64, read_int32, read_int64, encode_zigzag32, encode_zigzag64,
}
use cpp_linux_server_frame.ByteArray.Codec.Ahead.{Ahead, Reads, read-Ahead, Reads-bind, Reads-ok}
use cpp_linux_server_frame.ByteArray.Codec.Fixed.{RoundTrip, round_trip}
use cpp_linux_server_frame.ByteArray.Codec.Zigzag.{decode-encode32, decode-encode64}

-- The groups of seven bits, lowest first, with the top bit set on all but the last.
pub groups : ℕ → ℕ → List ℕ
groups zero v = v ∷ []
groups (suc n) v = if leb 128 v then (v % 128 + 128) ∷ groups n (v / 128) else v ∷ []

pub length-groups : (n v : ℕ) → (0 < length (groups n v)) × (length (groups n v) ≤ suc n)
unfolding groups
length-groups zero v = omega arith
length-groups (suc n) v = ground (arith, length-groups n (v / 128))

-- The loop stays within `tmp` when the value has no more groups than `tmp` has bytes.
pub varint-groups : (n k v : ℕ) → v < 2 ^ k → v < 128 ^ suc n → varint (suc n) v ≡ some (groups n v)
unfolding varint groups
varint-groups zero k v small fits = ground arith
varint-groups (suc n) k v small fits = elim (Bool-cases (leb 128 v)) [
  | inl more ↦
      rw (more, varint-groups n k (v / 2 ^ 7) (omega arith) (omega (arith, pow-suc 128 (suc n))))
        (ap (λ (t : ℕ). some (t ∷ groups n (v / 128)))
          (omega (
            arith,
            bit_or_top_bit (v % 128) (omega arith),
            ap (λ (t : ℕ). bit_or t 128) (bit_and_seven_bits k v small),
          )))
  | inr last ↦ rw last (ground arith)
]

read_fuint8-Reads :
    (b : ByteArray) (x : ℕ) (rest : List ℕ) → Ahead b (x ∷ rest) → Reads b x rest (read_fuint8 b)
unfolding read_fuint8 of_le
read_fuint8-Reads b x rest a =
    Reads-bind b (x ∷ []) x rest rest (λ r. ok (of_le r.0, r.1))
      (read-Ahead b (x ∷ []) rest (omega arith) a)
      (λ b' e a'. Reads-ok b' (of_le (x ∷ [])) x rest (omega arith) a')

seven_more : (i : ℕ) → 2 ^ (i + 7) ≡ 128 * 2 ^ i
seven_more i = simp towards_suc (omega arith)

-- The value above bit `i` is its lowest group and the groups above it.
next_group : (v i : ℕ) → v * 2 ^ i ≡ v % 128 * 2 ^ i + v / 128 * 2 ^ (i + 7)
next_group v i = omega (
  arith,
  ap (λ (t : ℕ). t * 2 ^ i) (div-add-mod v 128),
  ap (λ (t : ℕ). v / 128 * t) (seven_more i),
)

-- `result |= x << i` when the result lies below bit `i` and the shift loses nothing.
or_group :
    (m i result x : ℕ)
    → result < 2 ^ i
    → result + x * 2 ^ i < m
    → bit_or result (x * 2 ^ i % m) ≡ result + x * 2 ^ i
or_group m i result x low fits =
    ap (bit_or result) (mod-eq_of_lt (omega arith)) ∙ bit_or_fields i result x low

-- One round on a last byte, and one on a byte with more behind it.
last_byte :
    (m n i result v : ℕ) (b : ByteArray) (rest : List ℕ)
    → result < 2 ^ i
    → result + v * 2 ^ i < m
    → v < 128
    → Ahead b (v ∷ rest)
    → Reads b (result + v * 2 ^ i) rest (read_varint m (suc n) i result b)
unfolding read_varint
last_byte m n i result v b rest low fits small a =
    Reads-bind b v (result + v * 2 ^ i) rest rest _ (read_fuint8-Reads b v rest a) (λ b' e a'.
      rw (lt→ltb v 128 small) (Reads-ok b' _ _ rest (or_group m i result v low fits) a'))

inner_byte :
    (m n i result x v : ℕ) (b : ByteArray) (mid rest : List ℕ)
    → result < 2 ^ i
    → result + x * 2 ^ i < m
    → x < 128
    → Ahead b ((x + 128) ∷ mid)
    → ((b' : ByteArray)
        → Ahead b' mid
        → Reads b' v rest (read_varint m n (i + 7) (result + x * 2 ^ i) b'))
    → Reads b v rest (read_varint m (suc n) i result b)
unfolding read_varint
inner_byte m n i result x v b mid rest low fits small a next =
    Reads-bind b (x + 128) v mid rest _ (read_fuint8-Reads b (x + 128) mid a)
      (λ b' e a'. rw (not_last, group) (next b' a'))
  where
    not_last : ltb (x + 128) 128 ≡ false
    not_last = ground arith

    group : bit_or result (bit_and (x + 128) 127 * 2 ^ i % m) ≡ result + x * 2 ^ i
    group =
        ap (λ (t : ℕ). bit_or result (t * 2 ^ i % m))
          (omega (arith, bit_and_seven_bits 8 (x + 128) (omega arith)))
        ∙ or_group m i result x low fits

below_next : (i result x : ℕ) → result < 2 ^ i → x < 128 → result + x * 2 ^ i < 2 ^ (i + 7)
below_next i result x low small = omega (arith, seven_more i, mul_mono x 127 (2 ^ i) (omega arith))

-- The loop of a read adds the groups above bit `i` to the result, which lies below it.
read_varint-Reads :
    (m n i result v : ℕ) (b : ByteArray) (rest : List ℕ)
    → result < 2 ^ i
    → result + v * 2 ^ i < m
    → v < 128 ^ suc n
    → Ahead b (groups n v ++ rest)
    → Reads b (result + v * 2 ^ i) rest (read_varint m (suc n) i result b)
unfolding groups
read_varint-Reads m zero i result v b rest low fits one a =
    last_byte m 0 i result v b rest low fits (omega arith) a
read_varint-Reads m (suc n) i result v b rest low fits many a = elim (Bool-cases (leb 128 v)) [
  | inr last ↦ last_byte m (suc n) i result v b rest low fits (ground arith) (rw last at a)
  | inl more ↦
      inner_byte m (suc n) i result (v % 128) (result + v * 2 ^ i) b (groups n (v / 128) ++ rest)
        rest low (omega (arith, next_group v i)) (omega arith) (rw more at a)
        (λ b' a'.
          subst
            (λ (t : ℕ).
              Reads b' t rest (read_varint m (suc n) (i + 7) (result + v % 128 * 2 ^ i) b'))
            (omega (arith, next_group v i))
            (read_varint-Reads m n (i + 7) (result + v % 128 * 2 ^ i) (v / 128) b' rest
              (below_next i result (v % 128) low (omega arith)) (omega (arith, next_group v i))
              (omega (arith, pow-suc 128 (suc n))) a'))
]

abbrev pub groups32 : ℕ → List ℕ
groups32 = groups 4

abbrev pub groups64 : ℕ → List ℕ
groups64 = groups 9

pub write_uint32-Wrote :
    (b : ByteArray) (v : ℕ) → v < 2 ^ 32 → IsValid b → Wrote b (groups32 v) (write_uint32 b v)
unfolding write_uint32
write_uint32-Wrote b v fits valid =
    rw (varint-groups 4 32 v fits (omega arith)) (write-Wrote b (groups32 v) valid)

pub write_uint64-Wrote :
    (b : ByteArray) (v : ℕ) → v < 2 ^ 64 → IsValid b → Wrote b (groups64 v) (write_uint64 b v)
unfolding write_uint64
write_uint64-Wrote b v fits valid =
    rw (varint-groups 9 64 v fits (omega arith)) (write-Wrote b (groups64 v) valid)

pub read_uint32-Reads :
    (b : ByteArray) (v : ℕ) (rest : List ℕ)
    → v < 2 ^ 32
    → Ahead b (groups32 v ++ rest)
    → Reads b v rest (read_uint32 b)
unfolding read_uint32
read_uint32-Reads b v rest fits a =
    subst (λ (t : ℕ). Reads b t rest (read_varint (2 ^ 32) 5 0 0 b)) (omega arith)
      (read_varint-Reads (2 ^ 32) 4 0 0 v b rest (omega arith) (omega arith) (omega arith) a)

pub read_uint64-Reads :
    (b : ByteArray) (v : ℕ) (rest : List ℕ)
    → v < 2 ^ 64
    → Ahead b (groups64 v ++ rest)
    → Reads b v rest (read_uint64 b)
unfolding read_uint64
read_uint64-Reads b v rest fits a =
    subst (λ (t : ℕ). Reads b t rest (read_varint (2 ^ 64) 10 0 0 b)) (omega arith)
      (read_varint-Reads (2 ^ 64) 9 0 0 v b rest (omega arith) (omega arith) (omega arith) a)

-- On a valid array, writeUint32 of a 32-bit integer succeeds, setPosition back to where it began
-- succeeds, and readUint32 then returns the integer and leaves a valid array.
pub uint32-RoundTrip :
    (b : ByteArray) (v : ℕ) → v < 2 ^ 32 → IsValid b → RoundTrip b v (write_uint32 b v) read_uint32
uint32-RoundTrip b v fits valid =
    round_trip b v (groups32 v) [] read_uint32 valid (write_uint32-Wrote b v fits valid) (λ b' e a.
      read_uint32-Reads b' v [] fits (subst (Ahead b') (sym (append-nil (groups32 v))) a))

-- On a valid array, writeUint64 of a 64-bit integer succeeds, setPosition back to where it began
-- succeeds, and readUint64 then returns the integer and leaves a valid array.
pub uint64-RoundTrip :
    (b : ByteArray) (v : ℕ) → v < 2 ^ 64 → IsValid b → RoundTrip b v (write_uint64 b v) read_uint64
uint64-RoundTrip b v fits valid =
    round_trip b v (groups64 v) [] read_uint64 valid (write_uint64-Wrote b v fits valid) (λ b' e a.
      read_uint64-Reads b' v [] fits (subst (Ahead b') (sym (append-nil (groups64 v))) a))

encode_zigzag32-lt : (v : ℕ) → encode_zigzag32 v < 2 ^ 32
unfolding encode_zigzag32
encode_zigzag32-lt v = ground arith

encode_zigzag64-lt : (v : ℕ) → encode_zigzag64 v < 2 ^ 64
unfolding encode_zigzag64
encode_zigzag64-lt v = ground arith

-- On a valid array, writeInt32 of a 32-bit pattern succeeds, setPosition back to where it began
-- succeeds, and readInt32 then returns the pattern and leaves a valid array.
pub int32-RoundTrip :
    (b : ByteArray) (v : ℕ) → v < 2 ^ 32 → IsValid b → RoundTrip b v (write_int32 b v) read_int32
unfolding write_int32 read_int32
int32-RoundTrip b v fits valid =
    let code = encode_zigzag32 v in
    round_trip b v (groups32 code) [] read_int32 valid
      (write_uint32-Wrote b code (encode_zigzag32-lt v) valid)
      (λ b' e a.
        Reads-bind b' code v [] [] _
          (read_uint32-Reads b' code [] (encode_zigzag32-lt v)
            (subst (Ahead b') (sym (append-nil (groups32 code))) a))
          (λ c _ a'. Reads-ok c _ v [] (decode-encode32 v fits) a'))

-- On a valid array, writeInt64 of a 64-bit pattern succeeds, setPosition back to where it began
-- succeeds, and readInt64 then returns the pattern and leaves a valid array.
pub int64-RoundTrip :
    (b : ByteArray) (v : ℕ) → v < 2 ^ 64 → IsValid b → RoundTrip b v (write_int64 b v) read_int64
unfolding write_int64 read_int64
int64-RoundTrip b v fits valid =
    let code = encode_zigzag64 v in
    round_trip b v (groups64 code) [] read_int64 valid
      (write_uint64-Wrote b code (encode_zigzag64-lt v) valid)
      (λ b' e a.
        Reads-bind b' code v [] [] _
          (read_uint64-Reads b' code [] (encode_zigzag64-lt v)
            (subst (Ahead b') (sym (append-nil (groups64 code))) a))
          (λ c _ a'. Reads-ok c _ v [] (decode-encode64 v fits) a'))

pub length-one_group : (n : ℕ) → n < 128 → length (groups64 n) ≡ 1
unfolding groups
length-one_group n h = ground arith
