-- ===== src/ByteArray/Codec/Tests.antt =====
-- Runs of the formats on concrete input, and the theorems about them at concrete input.
use mathlib.Core.List.{reverse}
use cpp_linux_server_frame.Base.{
  ℕ, ◌^◌, ◌<◌, ◌≡◌, refl, subst, ◌∙◌, List, [], ◌∷◌, length, none, some, arith, length-reverse,
}
use cpp_linux_server_frame.ByteArray.Result.{ok}
use cpp_linux_server_frame.ByteArray.Memory.{
  ByteArray, little, big, init, write, read, write_loop, add_capacity, get_capacity, link_nodes,
  set_position,
}
use cpp_linux_server_frame.ByteArray.Memory.Layout.{
  IsValid, init-IsValid, set_position-MovedTo, MovedTo,
}
use cpp_linux_server_frame.ByteArray.Memory.Access.{Wrote, write-Wrote, Got, read-Got}
use cpp_linux_server_frame.ByteArray.Codec.{
  Host, Width, w16, w32, size_of, le_bytes, of_le, write_fixed, read_fixed, varint, write_uint64,
  read_uint64, write_string, read_string,
}
use cpp_linux_server_frame.ByteArray.Codec.Bytes.{
  length-le_bytes, le_bytes-of_le, of_le-lt, le_bytes-IsBytes, reverse-IsBytes,
}
use cpp_linux_server_frame.ByteArray.Codec.Fixed.{RoundTrip, fixed-RoundTrip}
use cpp_linux_server_frame.ByteArray.Codec.Varint.{uint64-RoundTrip}
use cpp_linux_server_frame.ByteArray.Codec.Strings.{string-RoundTrip}

-- A little-endian machine.
swap_bytes : Width → ℕ → ℕ
swap_bytes w v = of_le (reverse (le_bytes (size_of w) v))

length-reversed : (w : Width) (v : ℕ) → length (reverse (le_bytes (size_of w) v)) ≡ size_of w
length-reversed w v = length-reverse (le_bytes (size_of w) v) ∙ length-le_bytes (size_of w) v

swap_bytes-lt : (w : Width) (v : ℕ) → v < 256 ^ size_of w → swap_bytes w v < 256 ^ size_of w
unfolding swap_bytes
swap_bytes-lt w v h =
    subst (λ (n : ℕ). of_le (reverse (le_bytes (size_of w) v)) < 256 ^ n) (length-reversed w v)
      (of_le-lt (reverse (le_bytes (size_of w) v))
        (reverse-IsBytes (le_bytes (size_of w) v) (le_bytes-IsBytes (size_of w) v)))

swap_bytes_bytes :
    (w : Width) (v : ℕ)
    → v < 256 ^ size_of w
    → le_bytes (size_of w) (swap_bytes w v) ≡ reverse (le_bytes (size_of w) v)
unfolding swap_bytes
swap_bytes_bytes w v h =
    subst
      (λ (n : ℕ).
        le_bytes n (of_le (reverse (le_bytes (size_of w) v))) ≡ reverse (le_bytes (size_of w) v))
      (length-reversed w v)
      (le_bytes-of_le (reverse (le_bytes (size_of w) v))
        (reverse-IsBytes (le_bytes (size_of w) v) (le_bytes-IsBytes (size_of w) v)))

abbrev x86 : Host
x86 = record {
  order = little;
  bswap = swap_bytes;
  bswap_lt = swap_bytes-lt;
  bswap_bytes = swap_bytes_bytes;
}

-- An array with nodes of four bytes.
abbrev small : ByteArray
small = init 4

small-IsValid : IsValid small
small-IsValid = init-IsValid 4 (omega arith)

abbrev hello : List ℕ
hello = 104 ∷ 101 ∷ 108 ∷ 108 ∷ 111 ∷ []

-- Five bytes fill the first node and start the second.
write-hello :
    write small hello
    ≡ ok (record {
      base_size = 4;
      position = 5;
      size = 5;
      capacity = 8;
      endian = big;
      nodes = (104 ∷ 101 ∷ 108 ∷ 108 ∷ []) ∷ (111 ∷ 0 ∷ 0 ∷ 0 ∷ []) ∷ [];
      cur = some 1;
    })
unfolding write write_loop add_capacity get_capacity link_nodes
write-hello = refl

varint_300 : varint 5 300 ≡ some (0xac ∷ 0x02 ∷ [])
unfolding varint
varint_300 = refl

write-Wrote_example : Wrote small hello (write small hello)
write-Wrote_example = write-Wrote small hello small-IsValid

abbrev stocked : ByteArray
stocked = record {
  base_size = 4;
  position = 1;
  size = 5;
  capacity = 8;
  endian = big;
  nodes = (104 ∷ 101 ∷ 108 ∷ 108 ∷ []) ∷ (111 ∷ 0 ∷ 0 ∷ 0 ∷ []) ∷ [];
  cur = some 0;
}

stocked-IsValid : IsValid stocked
stocked-IsValid = record {
  positive = omega arith;
  rooted = omega arith;
  blocks = (refl, (refl, tt));
  allocated = refl;
  within = omega arith;
  behind = omega arith;
  pointed = refl;
}

read-Got_example : Got stocked 4 (read stocked 4)
read-Got_example = read-Got stocked 4 stocked-IsValid (omega arith) (omega arith)

set_position-MovedTo_example : MovedTo stocked 7 (set_position stocked 7)
set_position-MovedTo_example = set_position-MovedTo stocked 7 stocked-IsValid (omega arith)

abbrev at_end : ByteArray
at_end = record {
  base_size = 2;
  position = 2;
  size = 2;
  capacity = 2;
  endian = big;
  nodes = (1 ∷ 2 ∷ []) ∷ [];
  cur = none;
}

at_end-IsValid : IsValid at_end
at_end-IsValid = record {
  positive = omega arith;
  rooted = omega arith;
  blocks = (refl, tt);
  allocated = refl;
  within = omega arith;
  behind = omega arith;
  pointed = refl;
}

fixed-RoundTrip_example :
    RoundTrip small 0x12345678 (write_fixed x86 w32 small 0x12345678) (read_fixed x86 w32)
fixed-RoundTrip_example = fixed-RoundTrip x86 w32 small 0x12345678 (omega arith) small-IsValid

uint64-RoundTrip_example :
    RoundTrip small 0xffff_ffff_ffff_ffff (write_uint64 small 0xffff_ffff_ffff_ffff) read_uint64
uint64-RoundTrip_example = uint64-RoundTrip small 0xffff_ffff_ffff_ffff (omega arith) small-IsValid

string-RoundTrip_example :
    RoundTrip small hello (write_string x86 w16 small hello) (read_string x86 w16)
string-RoundTrip_example =
    string-RoundTrip x86 w16 small hello (omega arith) (omega arith) small-IsValid
