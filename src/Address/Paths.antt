-- ===== src/Address/Paths.antt =====
-- The addresses of UNIX sockets.
use cpp_linux_server_frame.Base.{
  ℕ, zero, suc, ◌+◌, ◌-◌, ◌≤◌, ◌<◌, ◌≡◌, ◌⊎◌, inl, inr, refl, ap, sym, subst, ◌∙◌, Bool, true,
  false, ◌&&◌, List, [], ◌∷◌, ◌++◌, append_assoc, append-nil, none, some, ltb, ◌==◌, if◌then◌else◌,
  length, take, replicate, length-append, arith,
}
use cpp_linux_server_frame.Address.{UnixAddress, starts_with_nul, new_unix_address, c_string, print}

-- No byte of the path is NUL.
abbrev pub NoNul : List ℕ → Type 0
NoNul [] = Unit {0}
NoNul (x ∷ l) = (0 < x) × NoNul l

take-append : (l m : List ℕ) (k : ℕ) → k ≡ length l → take k (l ++ m) ≡ l
take-append [] m zero e = refl
take-append [] m (suc k) e = absurd (omega arith)
take-append (x ∷ l) m zero e = absurd (omega arith)
take-append (x ∷ l) m (suc k) e = ap (λ (r : List ℕ). x ∷ r) (take-append l m k (omega arith))

c_string-append : (l m : List ℕ) → NoNul l → c_string (l ++ 0 ∷ m) ≡ l
unfolding c_string
c_string-append [] m h = refl
c_string-append (x ∷ l) m h = ground (arith, c_string-append l m h.1)

-- What a UNIX address prints of its path.
abbrev pub shown : List ℕ → List ℕ
shown [] = 92 ∷ 48 ∷ []
shown (x ∷ l) = if x == 0 then 92 ∷ 48 ∷ l else x ∷ l

-- A path, and an abstract one behind a NUL.
abbrev pub IsPath : List ℕ → Type 0
IsPath [] = Unit {0}
IsPath (x ∷ l) = (x ≡ 0) ⊎ NoNul (x ∷ l)

abbrev pub stored_length : List ℕ → ℕ
stored_length path = if starts_with_nul path then length path else length path + 1

abbrev with_length : ℕ → List ℕ → ℕ → UnixAddress
with_length size path n = record {
  sun_path = take n (path ++ 0 ∷ []) ++ replicate (size - n) 0;
  path_length = n;
}

abstract_path :
    (size : ℕ) (l : List ℕ) → print (with_length size (0 ∷ l) (length (0 ∷ l))) ≡ 92 ∷ 48 ∷ l
unfolding print
abstract_path size l =
    ap
      (λ (b : Bool).
        if b && true
        then 92 ∷ 48 ∷ take (suc (length l) - 1) shown_bytes
        else c_string (0 ∷ shown_bytes))
      positive
    ∙ ap
        (λ (q : List ℕ).
          92 ∷ 48 ∷ take (suc (length l) - 1) (q ++ replicate (size - suc (length l)) 0))
        (take-append l (0 ∷ []) (length l) refl)
    ∙ ap (λ (q : List ℕ). 92 ∷ 48 ∷ q)
        (take-append l (replicate (size - suc (length l)) 0) (suc (length l) - 1) (omega arith))
  where
    shown_bytes : List ℕ
    shown_bytes = take (length l) (l ++ 0 ∷ []) ++ replicate (size - suc (length l)) 0

    positive : ltb 0 (suc (length l)) ≡ true
    positive = ground arith

take_all : (l : List ℕ) (k : ℕ) → k ≡ length l → take k l ≡ l
take_all l k e = ap (take k) (sym (append-nil l)) ∙ take-append l [] k e

plain_path :
    (size x : ℕ) (l : List ℕ)
    → NoNul (x ∷ l)
    → print (with_length size (x ∷ l) (length (x ∷ l) + 1)) ≡ x ∷ l
unfolding print
plain_path size x l h =
    ap (λ (q : List ℕ). print (record { sun_path = q ++ rest; path_length = length (x ∷ l) + 1 }))
      (take_all ((x ∷ l) ++ 0 ∷ []) (length (x ∷ l) + 1)
        (omega (arith, length-append (x ∷ l) (0 ∷ []))))
    ∙ ap (λ (q : List ℕ). print (record { sun_path = q; path_length = length (x ∷ l) + 1 }))
        (append_assoc (x ∷ l) (0 ∷ []) rest)
    ∙ ap
        (λ (b : Bool).
          if ltb 0 (length (x ∷ l) + 1) && b
          then 92 ∷ 48 ∷ take (length (x ∷ l) + 1 - 1) (l ++ 0 ∷ rest)
          else c_string (x ∷ l ++ 0 ∷ rest))
        not_nul
    ∙ ap
        (λ (b : Bool).
          if b
          then 92 ∷ 48 ∷ take (length (x ∷ l) + 1 - 1) (l ++ 0 ∷ rest)
          else c_string (x ∷ l ++ 0 ∷ rest))
        (and_false (ltb 0 (length (x ∷ l) + 1)))
    ∙ c_string-append (x ∷ l) rest h
  where
    rest : List ℕ
    rest = replicate (size - (length (x ∷ l) + 1)) 0

    not_nul : (x == 0) ≡ false
    not_nul = ground (arith, h.0)

    and_false : (b : Bool) → (b && false) ≡ false
    and_false true = refl
    and_false false = refl

-- The address that a path makes, and how it is printed.
pub record Prints (size : ℕ) (path : List ℕ) : Type 0 where
  pub address : UnixAddress
  pub made : new_unix_address size path ≡ some address
  pub printed : print address ≡ shown path

-- A UnixAddress made from a path without NUL, of at most sizeof(sun_path) - 1 bytes, prints the
-- path; one made from a NUL and at most sizeof(sun_path) - 1 more bytes, or from the empty path,
-- prints "\\0" and those bytes; a path that is longer is refused.
new_unix_address-Prints :
    (size : ℕ) (path : List ℕ)
    → IsPath path
    → (stored_length path ≤ size → Prints size path)
      × (size < stored_length path → new_unix_address size path ≡ none)
unfolding new_unix_address print c_string
new_unix_address-Prints size path v = ((λ h. prints path v h), (λ h. ground arith))
  where
    not_nul : (x : ℕ) → 0 < x → (x == 0) ≡ false
    not_nul x h = ground arith

    printing :
        (path : List ℕ)
        → IsPath path
        → print (with_length size path (stored_length path)) ≡ shown path
    printing [] v = refl
    printing (x ∷ l) (inl e) =
        subst (λ (y : ℕ). print (with_length size (y ∷ l) (stored_length (y ∷ l))) ≡ shown (y ∷ l))
          (sym e) (abstract_path size l)
    printing (x ∷ l) (inr h) =
        ap
          (λ (b : Bool).
            print (with_length size (x ∷ l) (if b then length (x ∷ l) else length (x ∷ l) + 1)))
          (not_nul x h.0)
        ∙ plain_path size x l h
        ∙ ap (λ (b : Bool). if b then 92 ∷ 48 ∷ l else x ∷ l) (sym (not_nul x h.0))

    not_longer : {k : ℕ} → k ≤ size → ltb size k ≡ false
    not_longer h = ground arith

    prints : (path : List ℕ) → IsPath path → stored_length path ≤ size → Prints size path
    prints path v h = record {
      address = with_length size path (stored_length path);
      made =
          ap (λ (b : Bool). if b then none else some (with_length size path (stored_length path)))
            (not_longer h);
      printed = printing path v;
    }
