-- ===== src/Address/Order.antt =====
-- The order of addresses is the lexicographic order of their bytes.
use cpp_linux_server_frame.Base.{
  ℕ, zero, suc, ◌≡◌, ◌↔◌, ◌⊎◌, inl, inr, refl, subst, true, false, List, [], ◌∷◌, ltb, length, min,
  arith,
}
use cpp_linux_server_frame.Http.Cstring.{lex_lt}
use cpp_linux_server_frame.Address.{
  Sign, negative, nought, positive, memcmp, is_nought, by_sign, is_less, is_equal,
}

memcmp-lex :
    (n : ℕ) (a b : List ℕ)
    → n ≡ min (length a) (length b)
    → by_sign (memcmp n a b) (ltb (length a) (length b)) ≡ lex_lt a b
unfolding memcmp lex_lt
memcmp-lex zero [] [] e = refl
memcmp-lex zero [] (y ∷ b) e = ground arith
memcmp-lex zero (x ∷ a) [] e = ground arith
memcmp-lex zero (x ∷ a) (y ∷ b) e = absurd (omega arith)
memcmp-lex (suc n) [] b e = absurd (omega arith)
memcmp-lex (suc n) (x ∷ a) [] e = absurd (omega arith)
memcmp-lex (suc n) (x ∷ a) (y ∷ b) e = ground (arith, memcmp-lex n a b (omega arith))

is_less-lex : (a b : List ℕ) → is_less a b ≡ lex_lt a b
unfolding is_less
is_less-lex a b = memcmp-lex (min (length a) (length b)) a b refl

lex_irrefl : (a : List ℕ) → lex_lt a a ≡ false
unfolding lex_lt
lex_irrefl [] = refl
lex_irrefl (x ∷ a) = ground (arith, lex_irrefl a)

lex_trans : (a b c : List ℕ) → lex_lt a b ≡ true → lex_lt b c ≡ true → lex_lt a c ≡ true
unfolding lex_lt
lex_trans [] [] c h k = cc
lex_trans [] (y ∷ b) [] h k = cc
lex_trans [] (y ∷ b) (z ∷ c) h k = refl
lex_trans (x ∷ a) [] c h k = cc
lex_trans (x ∷ a) (y ∷ b) [] h k = cc
lex_trans (x ∷ a) (y ∷ b) (z ∷ c) h k = ground (arith, lex_trans a b c)

lex_total : (a b : List ℕ) → (lex_lt a b ≡ true) ⊎ (lex_lt b a ≡ true) ⊎ (a ≡ b)
unfolding lex_lt
lex_total [] [] = inr (inr refl)
lex_total [] (y ∷ b) = inl refl
lex_total (x ∷ a) [] = inr (inl refl)
lex_total (x ∷ a) (y ∷ b) = ground (arith, lex_total a b)

memcmp_refl : (a : List ℕ) → memcmp (length a) a a ≡ nought
unfolding memcmp
memcmp_refl [] = refl
memcmp_refl (x ∷ a) = ground (arith, memcmp_refl a)

memcmp→eq : (a b : List ℕ) → length a ≡ length b → memcmp (length a) a b ≡ nought → a ≡ b
unfolding memcmp
memcmp→eq [] [] e h = refl
memcmp→eq [] (y ∷ b) e h = absurd (omega arith)
memcmp→eq (x ∷ a) [] e h = absurd (omega arith)
memcmp→eq (x ∷ a) (y ∷ b) e h = ground (arith, memcmp→eq a b)

is_nought→eq : (s : Sign) → is_nought s ≡ true → s ≡ nought
is_nought→eq nought h = refl
is_nought→eq negative h = cc
is_nought→eq positive h = cc

is_equal_iff : (a b : List ℕ) → (is_equal a b ≡ true) ↔ (a ≡ b)
unfolding is_equal
is_equal_iff a b = (
  (λ h. memcmp→eq a b (ground arith) (is_nought→eq (memcmp (length a) a b) (ground arith))),
  (λ e. subst (λ (c : List ℕ). is_equal a c ≡ true) e (rw (is_equal, memcmp_refl) (ground arith))),
)

-- operator< on addresses is irreflexive, transitive and total, and operator== holds exactly of
-- addresses with the same bytes.
pub is_less_lem :
    (a b c : List ℕ)
    → (is_less a a ≡ false)
      × (is_less a b ≡ true → is_less b c ≡ true → is_less a c ≡ true)
      × ((is_less a b ≡ true) ⊎ (is_less b a ≡ true) ⊎ (is_equal a b ≡ true))
      × ((is_equal a b ≡ true) ↔ (a ≡ b))
is_less_lem a b c =
    rw (is_less-lex a a, is_less-lex a b, is_less-lex b c, is_less-lex a c, is_less-lex b a)
      (lex_irrefl a, lex_trans a b c, either (lex_total a b), is_equal_iff a b)
  where
    either :
        (lex_lt a b ≡ true) ⊎ (lex_lt b a ≡ true) ⊎ (a ≡ b)
        → (lex_lt a b ≡ true) ⊎ (lex_lt b a ≡ true) ⊎ (is_equal a b ≡ true)
    either (inl h) = inl h
    either (inr (inl h)) = inr (inl h)
    either (inr (inr h)) = inr (inr ((is_equal_iff a b).1 h))
