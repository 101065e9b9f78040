-- ===== src/Address/Networks.antt =====
-- The network and the broadcast address of an IPv6 address, by its subnet mask.
use Prim.Native.Nat.{bit_and, bit_or}
use native.Mathlib.Nat.{pow-le-pow_right}
use cpp_linux_server_frame.Base.{
  ◌+◌, ◌*◌, min, Bool, true, ltb, if◌then◌else◌, ℕ, zero, suc, ◌-◌, ◌/◌, ◌%◌, ◌^◌, ◌≤◌, ◌<◌, ◌≡◌,
  refl, ap, ap₂, sym, ◌∙◌, List, [], ◌∷◌, none, some, length, map, replicate, arith,
}
use cpp_linux_server_frame.Base.Bits.{bit_or-zero, bit_and-zero, bit_and_byte}
use cpp_linux_server_frame.Address.{
  create_mask8, complement8, push, change_from, broadcast_address, network_address, mask_bytes,
  subnet_mask,
}

pub zip_with : (ℕ → ℕ → ℕ) → List ℕ → List ℕ → List ℕ
zip_with f [] m = []
zip_with f (x ∷ l) [] = []
zip_with f (x ∷ l) (y ∷ m) = f x y ∷ zip_with f l m

abbrev pub AllBytes : List ℕ → Type 0
AllBytes [] = Unit {0}
AllBytes (x ∷ l) = (x < 256) × AllBytes l

-- Where the changes of a byte are those of `f` with the bytes of the mask.
module _ (f : ℕ → ℕ → ℕ) (behind : ℕ → ℕ) (mask : ℕ) (in_front : (x : ℕ) → x < 256 → f x 255 ≡ x)
    (at_end : (x : ℕ) → x < 256 → behind x ≡ f x 0) where
  zip_with-replicate :
      (l : List ℕ) → AllBytes l → map behind l ≡ zip_with f l (replicate (length l) 0)
  unfolding zip_with
  zip_with-replicate [] h = refl
  zip_with-replicate (x ∷ l) h = ap₂ ◌∷◌ (at_end x h.0) (zip_with-replicate l h.1)

  change_from-mask :
      (i : ℕ) (l : List ℕ)
      → AllBytes l
      → i < length l
      → change_from (λ x. f x (complement8 mask)) behind i l
        ≡ some (zip_with f l (mask_bytes mask (length l) i))
  unfolding change_from mask_bytes zip_with
  change_from-mask i [] b h = absurd (omega arith)
  change_from-mask zero (x ∷ l) b h =
      ap (λ (r : List ℕ). some (f x (complement8 mask) ∷ r)) (zip_with-replicate l b.1)
  change_from-mask (suc i) (x ∷ l) b h =
      ap (push x) (change_from-mask i l b.1 (omega arith))
      ∙ ap (λ (y : ℕ). some (y ∷ zip_with f l (mask_bytes mask (length l) i)))
          (sym (in_front x b.0))

change_beyond :
    (at behind : ℕ → ℕ) (i : ℕ) (l : List ℕ) → length l ≤ i → change_from at behind i l ≡ none
unfolding change_from
change_beyond at behind i [] h = refl
change_beyond at behind zero (x ∷ l) h = absurd (omega arith)
change_beyond at behind (suc i) (x ∷ l) h = ap (push x) (change_beyond at behind i l (omega arith))

abbrev pub or_not : ℕ → ℕ → ℕ
or_not x y = bit_or x (complement8 y)

complement-mask : (b : ℕ) → b < 8 → complement8 (complement8 (create_mask8 b)) ≡ create_mask8 b
complement-mask b h = omega (arith, at_most_256)
  where
    at_most_256 : 2 ^ (8 - b) ≤ 2 ^ 8
    at_most_256 = pow-le-pow_right {n = 2} (omega arith) {i = 8 - b} {j = 8} (omega arith)

-- A byte whose first `k` bits are set.
abbrev pub leading_ones : ℕ → ℕ
leading_ones zero = 0
leading_ones (suc k) = 128 + leading_ones k / 2

-- `n` bytes of which the first `prefix_len` bits are set, eight in each byte while they last.
abbrev pub prefix_mask : ℕ → ℕ → List ℕ
prefix_mask prefix_len zero = []
prefix_mask prefix_len (suc n) = leading_ones (min 8 prefix_len) ∷ prefix_mask (prefix_len - 8) n

leading_ones_lem : (r : ℕ) → r < 8 → complement8 (create_mask8 r) ≡ leading_ones r
leading_ones_lem zero h = refl
leading_ones_lem (suc zero) h = refl
leading_ones_lem (suc (suc zero)) h = refl
leading_ones_lem (suc (suc (suc zero))) h = refl
leading_ones_lem (suc (suc (suc (suc zero)))) h = refl
leading_ones_lem (suc (suc (suc (suc (suc zero))))) h = refl
leading_ones_lem (suc (suc (suc (suc (suc (suc zero)))))) h = refl
leading_ones_lem (suc (suc (suc (suc (suc (suc (suc zero))))))) h = refl
leading_ones_lem (suc (suc (suc (suc (suc (suc (suc (suc r)))))))) h = absurd (omega arith)

no_ones : (n : ℕ) → replicate n 0 ≡ prefix_mask 0 n
no_ones zero = refl
no_ones (suc n) = ap (λ (l : List ℕ). 0 ∷ l) (no_ones n)

mask_bytes_lem :
    (n i r : ℕ) → i < n → r < 8 → mask_bytes (create_mask8 r) n i ≡ prefix_mask (i * 8 + r) n
unfolding mask_bytes
mask_bytes_lem zero i r h k = absurd (omega arith)
mask_bytes_lem (suc n) zero r h k =
    ap₂ ◌∷◌ (leading_ones_lem r k ∙ ap leading_ones (omega (arith, k)))
      (no_ones n ∙ ap (λ (x : ℕ). prefix_mask x n) (omega (arith, k)))
mask_bytes_lem (suc n) (suc i) r h k =
    ap₂ ◌∷◌ (ap leading_ones {x = 8} (omega arith))
      (mask_bytes_lem n i r (omega arith) k ∙ ap (λ (x : ℕ). prefix_mask x n) (omega arith))

-- What the mask of a prefix says of the two addresses.
pub record Masked (prefix_len : ℕ) (a : List ℕ) : Type 0 where
  pub subnet : subnet_mask prefix_len ≡ some (prefix_mask prefix_len 16)
  pub network : network_address prefix_len a ≡ some (zip_with bit_and a (prefix_mask prefix_len 16))
  pub broadcast :
      broadcast_address prefix_len a ≡ some (zip_with or_not a (prefix_mask prefix_len 16))

-- For an IPv6 address of 16 bytes and a prefix of fewer than 128 bits, subnetMask is the 16 bytes
-- whose first bits, as many as the prefix has, are set and whose others are not, networkAddress is the
-- bitwise and of the address and these bytes, and broadcastAddress the bitwise or of the address and
-- their complement; from 128 bits on all three index beyond the array.
pub networks-Masked :
    (prefix_len : ℕ) (a : List ℕ)
    → length a ≡ 16
    → AllBytes a
    → (prefix_len < 128 → Masked prefix_len a)
      × (128 ≤ prefix_len
          → (network_address prefix_len a ≡ none)
            × (broadcast_address prefix_len a ≡ none)
            × (subnet_mask prefix_len ≡ none))
unfolding network_address broadcast_address subnet_mask
networks-Masked p a len b = (
  (λ h.
      let bytes_of =
        mask_bytes_lem 16 (p / 8) (p % 8) (omega (arith, h)) (omega arith)
        ∙ ap (λ (x : ℕ). prefix_mask x 16) (whole p) in
      record {
        subnet = chosen (ltb (p / 8) 16) _ (ground arith) ∙ ap (λ (l : List ℕ). some l) bytes_of;
        network =
            change_from-mask bit_and (λ x. 0) (create_mask8 (p % 8)) bit_and_byte
              (λ x l. sym (bit_and-zero 8 x l)) (p / 8) a b (omega (arith, len))
            ∙ ap
                (λ (n : ℕ). some (zip_with bit_and a (mask_bytes (create_mask8 (p % 8)) n (p / 8))))
                len
            ∙ ap (λ (l : List ℕ). some (zip_with bit_and a l)) bytes_of;
        broadcast =
            ap (λ (m : ℕ). change_from (λ x. bit_or x m) (λ x. bit_or x 255) (p / 8) a)
              (sym (complement-mask (p % 8) (omega arith)))
            ∙ change_from-mask or_not (λ x. bit_or x 255) (create_mask8 (p % 8))
                (λ x l. bit_or-zero 8 x l) (λ x l. refl) (p / 8) a b (omega (arith, len))
            ∙ ap (λ (n : ℕ). some (zip_with or_not a (mask_bytes (create_mask8 (p % 8)) n (p / 8))))
                len
            ∙ ap (λ (l : List ℕ). some (zip_with or_not a l)) bytes_of;
      }),
  (λ h. (
    change_beyond _ _ (p / 8) a (omega (arith, len)),
    change_beyond _ _ (p / 8) a (omega (arith, len)),
    ground arith,
  )),
)
  where
    whole : (n : ℕ) → n / 8 * 8 + n % 8 ≡ n
    whole n = omega arith

    chosen : (c : Bool) (l : List ℕ) → c ≡ true → (if c then some l else none) ≡ some l
    chosen c l h = rw h refl
