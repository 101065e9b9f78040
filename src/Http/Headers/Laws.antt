-- ===== src/Http/Headers/Laws.antt =====
-- The header map behaves as a finite map on keys without their case.
use cpp_linux_server_frame.Base.{
  ℕ, ◌≡◌, refl, ap, sym, true, false, ◌&&◌, not, List, [], ◌∷◌, none, some, if◌then◌else◌, arith,
}
use cpp_linux_server_frame.Http.Cstring.{fold, lex_lt, strcasecmp_lt}
use cpp_linux_server_frame.Http.Headers.{MapType, case_insensitive, equivalent, find, set, erase}

-- The order on folded strings is a strict total order.
pub lex_lt_irrefl : (a : List ℕ) → lex_lt a a ≡ false
unfolding lex_lt
lex_lt_irrefl [] = refl
lex_lt_irrefl (x ∷ a) = ground (arith, lex_lt_irrefl a)

lex_lt_trans : (a b c : List ℕ) → lex_lt a b ≡ true → lex_lt b c ≡ true → lex_lt a c ≡ true
unfolding lex_lt
lex_lt_trans [] [] c h k = cc
lex_lt_trans [] (y ∷ b) [] h k = cc
lex_lt_trans [] (y ∷ b) (z ∷ c) h k = refl
lex_lt_trans (x ∷ a) [] c h k = cc
lex_lt_trans (x ∷ a) (y ∷ b) [] h k = cc
lex_lt_trans (x ∷ a) (y ∷ b) (z ∷ c) h k = ground (arith, lex_lt_trans a b c)

lex_lt_total : (a b : List ℕ) → lex_lt a b ≡ false → lex_lt b a ≡ false → a ≡ b
unfolding lex_lt
lex_lt_total [] [] h k = refl
lex_lt_total [] (y ∷ b) h k = cc
lex_lt_total (x ∷ a) [] h k = cc
lex_lt_total (x ∷ a) (y ∷ b) h k = ground (arith, lex_lt_total a b)

-- Two names are one key of the map exactly when they are equal up to the case of ASCII letters,
-- read up to the first NUL.
pub equivalent_iff :
    (a b : List ℕ)
    → ((equivalent a b ≡ true) → fold a ≡ fold b) × ((fold a ≡ fold b) → equivalent a b ≡ true)
unfolding case_insensitive strcasecmp_lt
equivalent_iff a b = (
  λ h. ground (arith, lex_lt_total (fold a) (fold b)),
  λ e. rw e (ground (arith, lex_lt_irrefl (fold b))),
)

pub equivalent_sym : (a b : List ℕ) → equivalent a b ≡ equivalent b a
equivalent_sym a b = ground arith

pub equivalent_trans : (a b c : List ℕ) → equivalent a b ≡ true → equivalent b c ≡ equivalent a c
unfolding case_insensitive strcasecmp_lt
equivalent_trans a b c h =
    ap (λ (s : List ℕ). not (lex_lt s (fold c)) && not (lex_lt (fold c) s))
      (sym ((equivalent_iff a b).0 h))

-- A header that is set is found under every spelling of its name up to case, with its new value,
-- and what is found under any other name does not change.
pub find-set :
    (m : MapType) (key val j : List ℕ)
    → find (set m key val) j ≡ (if equivalent key j then some val else find m j)
unfolding find set
find-set [] key val j = refl
find-set ((k, v) ∷ m) key val j = ground (
  arith,
  find-set m key val j,
  equivalent_trans k key j,
  equivalent_trans k j key,
  equivalent_sym key j,
)

-- The keys of the map stand in the order of the comparison, each once.
abbrev pub Above : List ℕ → MapType → Type 0
Above key [] = Unit {0}
Above key ((k, v) ∷ m) = (case_insensitive key k ≡ true) × Above key m

abbrev pub IsSorted : MapType → Type 0
IsSorted [] = Unit {0}
IsSorted ((k, v) ∷ m) = Above k m × IsSorted m

case_insensitive_trans :
    (a b c : List ℕ)
    → case_insensitive a b ≡ true
    → case_insensitive b c ≡ true
    → case_insensitive a c ≡ true
unfolding case_insensitive strcasecmp_lt
case_insensitive_trans a b c = lex_lt_trans (fold a) (fold b) (fold c)

Above_trans : (a b : List ℕ) (m : MapType) → case_insensitive a b ≡ true → Above b m → Above a m
Above_trans a b [] h k = tt
Above_trans a b ((c, v) ∷ m) h k = (case_insensitive_trans a b c h k.0, Above_trans a b m h k.1)

Above-set :
    (a : List ℕ) (m : MapType) (key val : List ℕ)
    → case_insensitive a key ≡ true
    → Above a m
    → Above a (set m key val)
unfolding set
Above-set a [] key val h k = (h, tt)
Above-set a ((c, v) ∷ m) key val h k = ground (arith, Above-set a m key val h)

-- Setting a header keeps the pairs strictly in the order of CaseInsensitive, so that no name
-- stands twice up to case.
pub set-IsSorted : (m : MapType) (key val : List ℕ) → IsSorted m → IsSorted (set m key val)
unfolding set
set-IsSorted [] key val s = (tt, tt)
set-IsSorted ((k, v) ∷ m) key val s =
    ground (arith, set-IsSorted m key val s.1, Above-set k m key val, Above_trans key k m)

find-Above : (a j : List ℕ) (m : MapType) → equivalent a j ≡ true → Above a m → find m j ≡ none
unfolding find
find-Above a j [] e h = refl
find-Above a j ((k, v) ∷ m) e h =
    ground (arith, find-Above a j m e, equivalent_trans a j k e, equivalent_sym j k)

-- In a map whose pairs are strictly in order, a header that is deleted is not found under any
-- spelling of its name, and what is found under any other name does not change.
pub find-erase :
    (m : MapType) (key j : List ℕ)
    → IsSorted m
    → find (erase m key) j ≡ (if equivalent key j then none else find m j)
unfolding find erase
find-erase [] key j s = ground arith
find-erase ((k, v) ∷ m) key j s = ground (
  arith,
  find-erase m key j s.1,
  find-Above k j m,
  equivalent_trans k key j,
  equivalent_trans k j key,
  equivalent_sym key j,
)
