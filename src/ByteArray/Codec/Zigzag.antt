-- ===== src/ByteArray/Codec/Zigzag.antt =====
-- EncodeZigzag32/64 and DecodeZigzag32/64 are inverse on every bit pattern.
use cpp_linux_server_frame.Base.{ℕ, ◌/◌, ◌^◌, ◌<◌, ◌≡◌, arith}
use cpp_linux_server_frame.Base.Bits.{bit_and_one, bit_xor_ones, bit_xor-zero}
use cpp_linux_server_frame.ByteArray.Codec.{
  encode_zigzag, encode_zigzag32, decode_zigzag32, encode_zigzag64, decode_zigzag64,
}

-- DecodeZigzag32 undoes EncodeZigzag32 on every 32-bit pattern, that of INT32_MIN included.
pub decode-encode32 : (v : ℕ) → v < 2 ^ 32 → decode_zigzag32 (encode_zigzag32 v) ≡ v
unfolding decode_zigzag32 encode_zigzag32
decode-encode32 v h = ground (
  arith,
  bit_and_one 32 (encode_zigzag (2 ^ 32) v),
  bit_xor_ones 32 (encode_zigzag (2 ^ 32) v / 2),
  bit_xor-zero 32 (encode_zigzag (2 ^ 32) v / 2),
)

-- DecodeZigzag64 undoes EncodeZigzag64 on every 64-bit pattern, that of INT64_MIN included.
pub decode-encode64 : (v : ℕ) → v < 2 ^ 64 → decode_zigzag64 (encode_zigzag64 v) ≡ v
unfolding decode_zigzag64 encode_zigzag64
decode-encode64 v h = ground (
  arith,
  bit_and_one 64 (encode_zigzag (2 ^ 64) v),
  bit_xor_ones 64 (encode_zigzag (2 ^ 64) v / 2),
  bit_xor-zero 64 (encode_zigzag (2 ^ 64) v / 2),
)
