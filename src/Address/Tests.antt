-- ===== src/Address/Tests.antt =====
-- Addresses, and the theorems at concrete inputs.
use cpp_linux_server_frame.Base.{
  ℕ, ◌≤◌, ◌<◌, ◌≡◌, refl, true, List, [], ◌∷◌, none, some, replicate, arith,
}
use cpp_linux_server_frame.Address.{
  is_less, memcmp, network_address, broadcast_address, subnet_mask, change_from, mask_bytes,
}
use cpp_linux_server_frame.Address.Networks.{AllBytes, Masked, networks-Masked}

-- 2001:db8:ff00::1
abbrev address : List ℕ
address = 32 ∷ 1 ∷ 13 ∷ 184 ∷ 255 ∷ 0 ∷ 0 ∷ 0 ∷ 0 ∷ 0 ∷ 0 ∷ 0 ∷ 0 ∷ 0 ∷ 0 ∷ 1 ∷ []

address-AllBytes : AllBytes address
address-AllBytes = ground arith

network_33 : network_address 33 address ≡ some (32 ∷ 1 ∷ 13 ∷ 184 ∷ 128 ∷ replicate 11 0)
unfolding network_address change_from
network_33 = refl

mask_33 : subnet_mask 33 ≡ some (255 ∷ 255 ∷ 255 ∷ 255 ∷ 128 ∷ replicate 11 0)
unfolding subnet_mask mask_bytes
mask_33 = refl

shorter_first : is_less (1 ∷ 2 ∷ []) (1 ∷ 2 ∷ 0 ∷ []) ≡ true
unfolding is_less memcmp
shorter_first = refl

networks-Masked_example :
    (33 < 128 → Masked 33 address)
    × (128 ≤ 33
        → (network_address 33 address ≡ none)
          × (broadcast_address 33 address ≡ none)
          × (subnet_mask 33 ≡ none))
networks-Masked_example = networks-Masked 33 address refl address-AllBytes
