-- ===== src/ByteArray.antt =====
-- yuan/bytearray.h and yuan/bytearray.cc: a growable byte buffer kept in equal blocks, with a
-- read and write position, and the integer and string formats stored in it.
pub mod Result
pub mod Memory
pub mod Codec
