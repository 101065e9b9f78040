-- ===== src/ByteArray/Codec.antt =====
-- The integer and string formats of yuan/bytearray.cc, with byteswap of yuan/endian.h. A signed
-- integer is its two's complement bit pattern, and signed overflow wraps.
pub mod Bytes
pub mod Ahead
pub mod Fixed
pub mod Varint
pub mod Zigzag
pub mod Strings
mod Tests
use Prim.Native.Nat.{bit_and, bit_or, bit_xor}
use mathlib.Core.Option
use cpp_linux_server_frame.Base.{
  ℕ, zero, suc, ◌+◌, ◌-◌, ◌*◌, ◌/◌, ◌%◌, ◌^◌, ◌<◌, ◌≡◌, Bool, true, false, List, [], ◌∷◌, reverse,
  Option, none, some, ltb, leb, ◌==◌, if◌then◌else◌, length,
}
use cpp_linux_server_frame.ByteArray.Result.{Result, ok, out_of_range, fault, ◌>>=◌}
use cpp_linux_server_frame.ByteArray.Memory.{ByteArray, Endian, little, big, write, read}

-- sizeof of the integers that byteswap takes
pub data Width : Type 0 where
  w16 w32 w64 : Width

abbrev pub size_of : Width → ℕ
size_of w16 = 2
size_of w32 = 4
size_of w64 = 8

-- The bytes of an integer, lowest first, and back.
unfoldable pub le_bytes : ℕ → ℕ → List ℕ
le_bytes zero v = []
le_bytes (suc n) v = (v % 256) ∷ le_bytes n (v / 256)

unfoldable pub of_le : List ℕ → ℕ
of_le [] = 0
of_le (x ∷ xs) = x + 256 * of_le xs

-- The machine: its byte order (YUAN_BYTE_ORDER), and bswap_16, bswap_32 and bswap_64 of the C
-- library, which reverse the bytes of an integer.
pub record Host : Type 0 where
  pub order : Endian
  pub bswap : Width → ℕ → ℕ
  pub bswap_lt : (w : Width) (v : ℕ) → v < 256 ^ size_of w → bswap w v < 256 ^ size_of w
  pub bswap_bytes :
      (w : Width) (v : ℕ)
      → v < 256 ^ size_of w
      → le_bytes (size_of w) (bswap w v) ≡ reverse (le_bytes (size_of w) v)

abbrev pub in_order : Endian → List ℕ → List ℕ
in_order little bytes = bytes
in_order big bytes = reverse bytes

abbrev pub same_endian : Endian → Endian → Bool
same_endian little little = true
same_endian big big = true
same_endian _ _ = false

module _ (h : Host) where
  -- `if (m_endian != YUAN_BYTE_ORDER) value = byteswap(value);`
  abbrev pub byteswap : Endian → Width → ℕ → ℕ
  byteswap endian w v = if same_endian endian h.order then v else h.bswap w v

  unfoldable pub write_fixed : Width → ByteArray → ℕ → Result ByteArray
  write_fixed w b v = write b (in_order h.order (le_bytes (size_of w) (byteswap b.endian w v)))

  -- The macro READ.
  unfoldable pub read_fixed : Width → ByteArray → Result (ℕ × ByteArray)
  read_fixed w b =
      read b (size_of w) >>= λ r. ok (byteswap b.endian w (of_le (in_order h.order r.0)), r.1)

unfoldable pub write_fuint8 : ByteArray → ℕ → Result ByteArray
write_fuint8 b v = write b (v ∷ [])

unfoldable pub read_fuint8 : ByteArray → Result (ℕ × ByteArray)
read_fuint8 b = read b 1 >>= λ r. ok (of_le r.0, r.1)

-- EncodeZigzag32 and EncodeZigzag64, at `m` = 2 ^ 32 and 2 ^ 64
abbrev pub encode_zigzag : ℕ → ℕ → ℕ
encode_zigzag m value =
    if leb (m / 2) value then ((m - value) % m * 2 + m - 1) % m else value * 2 % m

-- DecodeZigzag32 and DecodeZigzag64: `(value >> 1) ^ -(value & 1)`
abbrev pub decode_zigzag : ℕ → ℕ → ℕ
decode_zigzag m value = bit_xor (value / 2) ((m - bit_and value 1) % m)

unfoldable pub encode_zigzag32 : ℕ → ℕ
encode_zigzag32 = encode_zigzag (2 ^ 32)

unfoldable pub decode_zigzag32 : ℕ → ℕ
decode_zigzag32 = decode_zigzag (2 ^ 32)

unfoldable pub encode_zigzag64 : ℕ → ℕ
encode_zigzag64 = encode_zigzag (2 ^ 64)

unfoldable pub decode_zigzag64 : ℕ → ℕ
decode_zigzag64 = decode_zigzag (2 ^ 64)

-- The bytes that writeUint32 and writeUint64 put into `tmp`, which has `room` bytes left; `none` is
-- a write behind its end.
unfoldable pub varint : ℕ → ℕ → Option (List ℕ)
varint zero value = none
varint (suc room) value =
    if leb 0x80 value
    then Option.map (◌∷◌ (bit_or (bit_and value 0x7f) 0x80 % 256)) (varint room (value / 2 ^ 7))
    else some ((value % 256) ∷ [])

abbrev pub write_tmp : ByteArray → Option (List ℕ) → Result ByteArray
write_tmp b none = fault
write_tmp b (some tmp) = write b tmp

unfoldable pub write_uint32 : ByteArray → ℕ → Result ByteArray
write_uint32 b value = write_tmp b (varint 5 value)

unfoldable pub write_uint64 : ByteArray → ℕ → Result ByteArray
write_uint64 b value = write_tmp b (varint 10 value)

unfoldable pub write_int32 : ByteArray → ℕ → Result ByteArray
write_int32 b value = write_uint32 b (encode_zigzag32 value)

unfoldable pub write_int64 : ByteArray → ℕ → Result ByteArray
write_int64 b value = write_uint64 b (encode_zigzag64 value)

-- The loop of readUint32 and readUint64 for integers below `m`, with the rounds that are left.
unfoldable pub read_varint : ℕ → ℕ → ℕ → ℕ → ByteArray → Result (ℕ × ByteArray)
read_varint m zero i result b = ok (result, b)
read_varint m (suc rounds) i result b = read_fuint8 b >>= λ r.
    let rest = read_varint m rounds (i + 7) (bit_or result (bit_and r.0 0x7f * 2 ^ i % m)) r.1 in
    if ltb r.0 0x80 then ok (bit_or result (r.0 * 2 ^ i % m), r.1) else rest

-- `i` runs over 0, 7, …, 28
unfoldable pub read_uint32 : ByteArray → Result (ℕ × ByteArray)
read_uint32 b = read_varint (2 ^ 32) 5 0 0 b

-- `i` runs over 0, 7, …, 63
unfoldable pub read_uint64 : ByteArray → Result (ℕ × ByteArray)
read_uint64 b = read_varint (2 ^ 64) 10 0 0 b

unfoldable pub read_int32 : ByteArray → Result (ℕ × ByteArray)
read_int32 b = read_uint32 b >>= λ r. ok (decode_zigzag32 r.0, r.1)

unfoldable pub read_int64 : ByteArray → Result (ℕ × ByteArray)
read_int64 b = read_uint64 b >>= λ r. ok (decode_zigzag64 r.0, r.1)

unfoldable pub write_string_vint : ByteArray → List ℕ → Result ByteArray
write_string_vint b value = write_uint64 b (length value) >>= λ b'. write b' value

module _ (h : Host) where
  -- writeStringF16, writeStringF32, writeStringF64: the length is cut to the width of its field.
  unfoldable pub write_string : Width → ByteArray → List ℕ → Result ByteArray
  write_string w b value =
      write_fixed h w b (length value % 256 ^ size_of w) >>= λ b'. write b' value

  -- readStringF16, readStringF32, readStringF64
  unfoldable pub read_string : Width → ByteArray → Result (List ℕ × ByteArray)
  read_string w b = read_fixed h w b >>= λ r. read r.1 r.0

  -- It reads the length with readFuint64.
  unfoldable pub read_string_vint : ByteArray → Result (List ℕ × ByteArray)
  read_string_vint b = read_fixed h w64 b >>= λ r. read r.1 r.0
