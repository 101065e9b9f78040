-- ===== src/Address.antt =====
-- Address of yuan/address.h and yuan/address.cc: the order on addresses, the networks of IPv6
-- addresses, and the addresses of UNIX sockets. An address is its bytes.
pub mod Order
pub mod Networks
pub mod Paths
mod Tests
use Prim.Native.Nat.{bit_and, bit_or}
use cpp_linux_server_frame.Base.{
  ℕ, zero, suc, ◌+◌, ◌-◌, ◌*◌, ◌/◌, ◌%◌, ◌^◌, Bool, true, false, ◌&&◌, not, List, [], ◌∷◌, ◌++◌,
  Option, none, some, ltb, leb, ◌==◌, if◌then◌else◌, length, take, drop, replicate, min, map,
}

-- The sign of what memcmp(a, b, n) returns, on bytes that are there.
pub data Sign : Type 0 where
  negative nought positive : Sign

unfoldable pub memcmp : ℕ → List ℕ → List ℕ → Sign
memcmp zero a b = nought
memcmp (suc n) [] b = nought
memcmp (suc n) (x ∷ a) [] = nought
memcmp (suc n) (x ∷ a) (y ∷ b) =
    let rest = memcmp n a b in if ltb x y then negative else if ltb y x then positive else rest

abbrev pub is_nought : Sign → Bool
is_nought nought = true
is_nought negative = false
is_nought positive = false

abbrev pub by_sign : Sign → Bool → Bool
by_sign negative shorter = true
by_sign positive shorter = false
by_sign nought shorter = shorter

-- Address::operator<, operator== and operator!= on getAddr and getAddrLen
unfoldable pub is_less : List ℕ → List ℕ → Bool
is_less a b = by_sign (memcmp (min (length a) (length b)) a b) (ltb (length a) (length b))

unfoldable pub is_equal : List ℕ → List ℕ → Bool
is_equal a b = length a == length b && is_nought (memcmp (length a) a b)

unfoldable pub is_unequal : List ℕ → List ℕ → Bool
is_unequal a b = not (is_equal a b)

-- CreateMask<uint8_t>, for at most 8 bits
abbrev pub create_mask8 : ℕ → ℕ
create_mask8 bits = 2 ^ (8 - bits) - 1

-- The complement of a uint8_t.
abbrev pub complement8 : ℕ → ℕ
complement8 x = 255 - x

abbrev pub push : ℕ → Option (List ℕ) → Option (List ℕ)
push x none = none
push x (some l) = some (x ∷ l)

-- The bytes of an address from `s6_addr[0]` on. The byte at `i` is changed by `at`, those behind it
-- by `behind`; none is an index beyond the array.
unfoldable pub change_from : (at behind : ℕ → ℕ) → ℕ → List ℕ → Option (List ℕ)
change_from at behind i [] = none
change_from at behind zero (x ∷ l) = some (at x ∷ map behind l)
change_from at behind (suc i) (x ∷ l) = push x (change_from at behind i l)

-- IPv6Address::broadcastAddress, networkAddress and subnetMask on the 16 bytes of an address
unfoldable pub broadcast_address : ℕ → List ℕ → Option (List ℕ)
broadcast_address prefix_len a =
    change_from (λ x. bit_or x (create_mask8 (prefix_len % 8))) (λ x. bit_or x 255) (prefix_len / 8)
      a

unfoldable pub network_address : ℕ → List ℕ → Option (List ℕ)
network_address prefix_len a =
    change_from (λ x. bit_and x (complement8 (create_mask8 (prefix_len % 8)))) (λ x. 0)
      (prefix_len / 8) a

-- subnet.s6_addr, where the bytes in front are set to 0xff after the byte at prefix_len / 8.
unfoldable pub mask_bytes : ℕ → ℕ → ℕ → List ℕ
mask_bytes mask zero n = []
mask_bytes mask (suc left) zero = complement8 mask ∷ replicate left 0
mask_bytes mask (suc left) (suc n) = 255 ∷ mask_bytes mask left n

unfoldable pub subnet_mask : ℕ → Option (List ℕ)
subnet_mask prefix_len =
    if ltb (prefix_len / 8) 16
    then some (mask_bytes (create_mask8 (prefix_len % 8)) 16 (prefix_len / 8))
    else none

-- UnixAddress: sun_path, and m_length without the offset of sun_path.
pub record UnixAddress : Type 0 where
  pub sun_path : List ℕ
  pub path_length : ℕ

-- The constructor from a path; none is the std::logic_error. `size` is sizeof(sun_path).
abbrev pub starts_with_nul : List ℕ → Bool
starts_with_nul [] = false
starts_with_nul (x ∷ l) = x == 0

unfoldable pub new_unix_address : ℕ → List ℕ → Option UnixAddress
new_unix_address size path =
    let n = if starts_with_nul path then length path else length path + 1 in
    if ltb size n
    then none
    else some
        (record { sun_path = take n (path ++ 0 ∷ []) ++ replicate (size - n) 0; path_length = n })

-- What is printed of a C string.
unfoldable pub c_string : List ℕ → List ℕ
c_string [] = []
c_string (x ∷ l) = if x == 0 then [] else x ∷ c_string l

-- UnixAddress::print
unfoldable pub print : UnixAddress → List ℕ
print u =
    if ltb 0 u.path_length && starts_with_nul u.sun_path
    then 92 ∷ 48 ∷ take (u.path_length - 1) (drop 1 u.sun_path)
    else c_string u.sun_path
