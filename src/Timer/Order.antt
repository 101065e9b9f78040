-- ===== src/Timer/Order.antt =====
-- The set of timers: a list without repetition, strictly in the order of the comparator.
use cpp_linux_server_frame.Base.{
  ℕ, ◌≡◌, ◌≢◌, ◌⊎◌, inl, inr, refl, Bool, true, false, List, [], ◌∷◌, arith,
}
use cpp_linux_server_frame.Timer.{before, same_place, insert, found, erase}

abbrev pub In : ℕ → List ℕ → Type 0
In a [] = ⊥
In a (b ∷ l) = (a ≡ b) ⊎ In a l

abbrev pub Above : (ℕ → ℕ) → ℕ → List ℕ → Type 0
Above key a [] = Unit {0}
Above key a (b ∷ l) = (before key a b ≡ true) × Above key a l

abbrev pub IsSorted : (ℕ → ℕ) → List ℕ → Type 0
IsSorted key [] = Unit {0}
IsSorted key (a ∷ l) = Above key a l × IsSorted key l

before_trans :
    (key : ℕ → ℕ) (a b c : ℕ)
    → before key a b ≡ true
    → before key b c ≡ true
    → before key a c ≡ true
unfolding before
before_trans key a b c h k = ground arith

pub before_irrefl : (key : ℕ → ℕ) (a : ℕ) → before key a a ≡ false
unfolding before
before_irrefl key a = ground arith

-- The comparator takes two timers for one only if they are one.
pub same_place→eq : (key : ℕ → ℕ) (a b : ℕ) → same_place key a b ≡ true → a ≡ b
unfolding before
same_place→eq key a b h = ground arith

pub same_place_refl : (key : ℕ → ℕ) (a : ℕ) → same_place key a a ≡ true
same_place_refl key a = rw (before_irrefl key a) refl

Above_trans :
    (key : ℕ → ℕ) (a b : ℕ) (l : List ℕ) → before key a b ≡ true → Above key b l → Above key a l
Above_trans key a b [] h k = tt
Above_trans key a b (c ∷ l) h k = (before_trans key a b c h k.0, Above_trans key a b l h k.1)

Above-In : (key : ℕ → ℕ) (a b : ℕ) (l : List ℕ) → Above key a l → In b l → before key a b ≡ true
Above-In key a b [] h i = elim i [ ]
Above-In key a b (c ∷ l) h (inl e) = rw e h.0
Above-In key a b (c ∷ l) h (inr i) = Above-In key a b l h.1 i

pub not-In-Above : (key : ℕ → ℕ) (a : ℕ) (l : List ℕ) → Above key a l → In a l → ⊥
not-In-Above key a l h i = clash (Above-In key a a l h i) (before_irrefl key a)
  where
    clash : {b : Bool} → b ≡ true → b ≡ false → ⊥
    clash p q = cc

-- insert
Above-insert :
    (key : ℕ → ℕ) (a b : ℕ) (l : List ℕ)
    → before key a b ≡ true
    → Above key a l
    → Above key a (insert key b l)
unfolding insert
Above-insert key a b [] h k = (h, tt)
Above-insert key a b (c ∷ l) h k = ground (arith, Above-insert key a b l h)

pub insert-IsSorted :
    (key : ℕ → ℕ) (a : ℕ) (l : List ℕ) → IsSorted key l → IsSorted key (insert key a l)
unfolding insert
insert-IsSorted key a [] s = (tt, tt)
insert-IsSorted key a (b ∷ l) s =
    ground (arith, insert-IsSorted key a l s.1, Above-insert key b a l, Above_trans key a b l)

pub In-insert : (key : ℕ → ℕ) (a b : ℕ) (l : List ℕ) → In b (insert key a l) → (b ≡ a) ⊎ In b l
unfolding insert
In-insert key a b [] i = i
In-insert key a b (c ∷ l) i = ground (arith, In-insert key a b l)

pub insert-In_self : (key : ℕ → ℕ) (a : ℕ) (l : List ℕ) → In a (insert key a l)
unfolding insert
insert-In_self key a [] = inl refl
insert-In_self key a (c ∷ l) = ground (arith, insert-In_self key a l, same_place→eq key c a)

pub insert-In : (key : ℕ → ℕ) (a b : ℕ) (l : List ℕ) → In b l → In b (insert key a l)
unfolding insert
insert-In key a b [] i = elim i [ ]
insert-In key a b (c ∷ l) i = ground (arith, insert-In key a b l)

-- find
pub found→In : (key : ℕ → ℕ) (a : ℕ) (l : List ℕ) → found key a l ≡ true → In a l
unfolding found
found→In key a [] h = cc
found→In key a (b ∷ l) h = ground (arith, found→In key a l, same_place→eq key b a)

pub In→found : (key : ℕ → ℕ) (a : ℕ) (l : List ℕ) → In a l → found key a l ≡ true
unfolding found
In→found key a [] i = elim i [ ]
In→found key a (b ∷ l) i = ground (arith, In→found key a l, before_irrefl key a)

-- erase
Above-erase : (key : ℕ → ℕ) (a b : ℕ) (l : List ℕ) → Above key b l → Above key b (erase key a l)
unfolding erase
Above-erase key a b [] h = tt
Above-erase key a b (c ∷ l) h = ground (arith, Above-erase key a b l h.1)

pub erase-IsSorted :
    (key : ℕ → ℕ) (a : ℕ) (l : List ℕ) → IsSorted key l → IsSorted key (erase key a l)
unfolding erase
erase-IsSorted key a [] s = tt
erase-IsSorted key a (c ∷ l) s =
    ground (arith, erase-IsSorted key a l s.1, Above-erase key a c l s.0)

pub In-erase : (key : ℕ → ℕ) (a b : ℕ) (l : List ℕ) → In b (erase key a l) → In b l
unfolding erase
In-erase key a b [] i = i
In-erase key a b (c ∷ l) i = ground (arith, In-erase key a b l)

pub erase-In : (key : ℕ → ℕ) (a b : ℕ) (l : List ℕ) → b ≢ a → In b l → In b (erase key a l)
unfolding erase
erase-In key a b [] n i = i
erase-In key a b (c ∷ l) n i = ground (arith, erase-In key a b l n, same_place→eq key c a)

pub not-In-erase : (key : ℕ → ℕ) (a : ℕ) (l : List ℕ) → IsSorted key l → In a (erase key a l) → ⊥
unfolding erase
not-In-erase key a [] s i = i
not-In-erase key a (c ∷ l) s i = ground (
  arith,
  not-In-erase key a l s.1,
  same_place→eq key c a,
  before_irrefl key a,
  not-In-Above key c l s.0,
)

-- Only the keys of the timers in the set matter.
Above_congr :
    (key key' : ℕ → ℕ) (a : ℕ) (l : List ℕ)
    → key a ≡ key' a
    → ((b : ℕ) → In b l → key b ≡ key' b)
    → Above key a l
    → Above key' a l
unfolding before
Above_congr key key' a [] e h s = tt
Above_congr key key' a (b ∷ l) e h s =
    (rw (e, h b (inl refl)) at s.0, Above_congr key key' a l e (λ c i. h c (inr i)) s.1)

pub IsSorted_congr :
    (key key' : ℕ → ℕ) (l : List ℕ)
    → ((b : ℕ) → In b l → key b ≡ key' b)
    → IsSorted key l
    → IsSorted key' l
IsSorted_congr key key' [] h s = tt
IsSorted_congr key key' (a ∷ l) h s = (
  Above_congr key key' a l (h a (inl refl)) (λ c i. h c (inr i)) s.0,
  IsSorted_congr key key' l (λ c i. h c (inr i)) s.1,
)
