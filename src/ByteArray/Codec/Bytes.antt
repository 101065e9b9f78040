-- ===== src/ByteArray/Codec/Bytes.antt =====
-- An integer and its bytes.
use mathlib.Core.List.{reverse-reverse, reverse-cons}
use native.Mathlib.Nat.{pow-suc}
use cpp_linux_server_frame.Base.{
  ℕ, zero, suc, ◌/◌, ◌^◌, ◌<◌, ◌≡◌, refl, ap, ap₂, sym, ◌∙◌, List, [], ◌∷◌, ◌++◌, reverse, length,
  arith, Bool-cases, inl, inr, if◌then◌else◌,
}
use cpp_linux_server_frame.ByteArray.Memory.{Endian, little, big}
use cpp_linux_server_frame.ByteArray.Codec.{
  Width, size_of, le_bytes, of_le, Host, in_order, byteswap, same_endian,
}

pub length-le_bytes : (n v : ℕ) → length (le_bytes n v) ≡ n
unfolding le_bytes
length-le_bytes zero v = refl
length-le_bytes (suc n) v = ap suc (length-le_bytes n (v / 256))

pub of_le-le_bytes : (n v : ℕ) → v < 256 ^ n → of_le (le_bytes n v) ≡ v
unfolding of_le le_bytes
of_le-le_bytes zero v h = omega arith
of_le-le_bytes (suc n) v h =
    omega (arith, pow-suc 256 n, of_le-le_bytes n (v / 256) (omega (arith, pow-suc 256 n)))

in_order-in_order : (o : Endian) (xs : List ℕ) → in_order o (in_order o xs) ≡ xs
in_order-in_order little xs = refl
in_order-in_order big xs = reverse-reverse xs

reordered :
    (o e : Endian) (n v s : ℕ)
    → le_bytes n s ≡ reverse (le_bytes n v)
    → in_order o (le_bytes n (if same_endian e o then v else s)) ≡ in_order e (le_bytes n v)
reordered little little n v s swapped = refl
reordered little big n v s swapped = swapped
reordered big little n v s swapped = ap reverse swapped ∙ reverse-reverse (le_bytes n v)
reordered big big n v s swapped = refl

module _ (h : Host) (w : Width) where
  -- Swapping twice changes nothing.
  pub bswap-bswap : (v : ℕ) → v < 256 ^ size_of w → h.bswap w (h.bswap w v) ≡ v
  bswap-bswap v fits =
      sym (
        of_le-le_bytes (size_of w) (h.bswap w (h.bswap w v)) (h.bswap_lt w _ (h.bswap_lt w v fits)))
      ∙ ap of_le (
          h.bswap_bytes w (h.bswap w v) (h.bswap_lt w v fits)
          ∙ ap reverse (h.bswap_bytes w v fits)
          ∙ reverse-reverse (le_bytes (size_of w) v))
      ∙ of_le-le_bytes (size_of w) v fits

  -- Whatever the order of the machine, the bytes leave it in the order that was asked for.
  pub wire_order :
      (e : Endian) (v : ℕ)
      → v < 256 ^ size_of w
      → in_order h.order (le_bytes (size_of w) (byteswap h e w v))
        ≡ in_order e (le_bytes (size_of w) v)
  wire_order e v fits = reordered h.order e (size_of w) v (h.bswap w v) (h.bswap_bytes w v fits)

  byteswap-lt : (e : Endian) (v : ℕ) → v < 256 ^ size_of w → byteswap h e w v < 256 ^ size_of w
  byteswap-lt e v fits = elim (Bool-cases (same_endian e h.order)) [
    | inl same ↦ rw same fits
    | inr other ↦ rw other (h.bswap_lt w v fits)
  ]

  byteswap-byteswap :
      (e : Endian) (v : ℕ) → v < 256 ^ size_of w → byteswap h e w (byteswap h e w v) ≡ v
  byteswap-byteswap e v fits = elim (Bool-cases (same_endian e h.order)) [
    | inl same ↦ rw same
    | inr other ↦ rw other (bswap-bswap v fits)
  ]

  -- And they come back.
  pub byteswap-of_wire :
      (e : Endian) (v : ℕ)
      → v < 256 ^ size_of w
      → byteswap h e w (of_le (in_order h.order (in_order e (le_bytes (size_of w) v)))) ≡ v
  byteswap-of_wire e v fits =
      ap (λ (t : List ℕ). byteswap h e w (of_le (in_order h.order t))) (sym (wire_order e v fits))
      ∙ ap (λ (t : List ℕ). byteswap h e w (of_le t))
          (in_order-in_order h.order (le_bytes (size_of w) (byteswap h e w v)))
      ∙ ap (byteswap h e w) (of_le-le_bytes (size_of w) (byteswap h e w v) (byteswap-lt e v fits))
      ∙ byteswap-byteswap e v fits

-- Lists of bytes are integers: the other inverse.
abbrev pub IsBytes : List ℕ → Type 0
IsBytes [] = Unit {0}
IsBytes (x ∷ xs) = (x < 256) × IsBytes xs

pub of_le-lt : (xs : List ℕ) → IsBytes xs → of_le xs < 256 ^ length xs
unfolding of_le
of_le-lt [] h = omega arith
of_le-lt (x ∷ xs) h = omega (arith, of_le-lt xs h.1, pow-suc 256 (length xs))

pub le_bytes-of_le : (xs : List ℕ) → IsBytes xs → le_bytes (length xs) (of_le xs) ≡ xs
unfolding of_le le_bytes
le_bytes-of_le [] h = refl
le_bytes-of_le (x ∷ xs) h =
    ap₂ ◌∷◌ (omega (arith, h.0))
      (ap (le_bytes (length xs)) (omega (arith, h.0)) ∙ le_bytes-of_le xs h.1)

pub le_bytes-IsBytes : (n v : ℕ) → IsBytes (le_bytes n v)
unfolding le_bytes
le_bytes-IsBytes zero v = tt
le_bytes-IsBytes (suc n) v = (omega arith, le_bytes-IsBytes n (v / 256))

append-IsBytes : (xs ys : List ℕ) → IsBytes xs → IsBytes ys → IsBytes (xs ++ ys)
append-IsBytes [] ys h k = k
append-IsBytes (x ∷ xs) ys h k = (h.0, append-IsBytes xs ys h.1 k)

pub reverse-IsBytes : (xs : List ℕ) → IsBytes xs → IsBytes (reverse xs)
reverse-IsBytes [] h = tt
reverse-IsBytes (x ∷ xs) h =
    rw (reverse-cons x xs) (append-IsBytes (reverse xs) (x ∷ []) (reverse-IsBytes xs h.1) (h.0, tt))
