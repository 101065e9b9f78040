-- ===== src/Http/Method/Names.antt =====
-- The tables of methods and status codes are read back, entry by entry.
use cpp_linux_server_frame.Base.{
  ℕ, zero, suc, ◌+◌, ◌<◌, ◌≤◌, ◌≡◌, refl, ap, sym, ◌∙◌, Bool, true, false, List, [], ◌∷◌, ◌++◌, ltb,
  ◌==◌, ==_iff, if◌then◌else◌, length, take, arith, fun_ext, ltb→lt, ◌⊎◌, inl, inr,
}
use cpp_linux_server_frame.Http.Cstring.{strcmp_eq, strncmp_eq}
use cpp_linux_server_frame.Http.Method.{
  http_method_map, first_method, string_to_http_method, chars_to_http_method, http_method_to_string,
  http_status_map, switch_status, http_status_to_string,
}

-- A table is settled by running the test on each of its places.
passes : (ℕ → Bool) → ℕ → Bool
passes test zero = true
passes test (suc n) = if test n then passes test n else false

passes_lem : (test : ℕ → Bool) (n x : ℕ) → x < n → passes test n ≡ true → test x ≡ true
unfolding passes
passes_lem test zero x below all = absurd (omega arith)
passes_lem test (suc n) x below all = ground (arith, passes_lem test n x)

-- One place of each table: a method's name, and the length of the beginning of it that is tried.
abbrev named : ℕ → Bool
named m = string_to_http_method (http_method_to_string m) == m

abbrev cut : ℕ → ℕ → ℕ
cut m n = chars_to_http_method (take n (http_method_to_string m)) n

abbrev named_whole : ℕ → Bool
named_whole m =
    chars_to_http_method (http_method_to_string m) (length (http_method_to_string m)) == m

string_table : passes named 34 ≡ true
unfolding passes string_to_http_method first_method strcmp_eq http_method_to_string
string_table = refl

-- StringToHttpMethod undoes HttpMethodToString on each of the 34 methods.
pub string_to-to_string : (m : ℕ) → m < 34 → string_to_http_method (http_method_to_string m) ≡ m
string_to-to_string m h = (==_iff _ m).0 (passes_lem named 34 m h string_table)

-- strncmp does not look behind the length that it is given.
strncmp_eq-append :
    (n : ℕ) (a b rest : List ℕ) → n ≤ length b → strncmp_eq n a (b ++ rest) ≡ strncmp_eq n a b
unfolding strncmp_eq
strncmp_eq-append zero a b rest h = refl
strncmp_eq-append (suc n) a [] rest h = absurd (omega arith)
strncmp_eq-append (suc n) [] (y ∷ b) rest h = refl
strncmp_eq-append (suc n) (x ∷ a) (y ∷ b) rest h = rw (strncmp_eq-append n a b rest (omega arith))

chars_table : passes named_whole 34 ≡ true
unfolding passes chars_to_http_method first_method strncmp_eq http_method_to_string
chars_table = refl

chars-append :
    (m rest : List ℕ) (n : ℕ)
    → n ≤ length m
    → chars_to_http_method (m ++ rest) n ≡ chars_to_http_method m n
unfolding chars_to_http_method
chars-append m rest n h =
    ap (λ (test : List ℕ → Bool). first_method test http_method_map 0)
      (fun_ext (λ desc. strncmp_eq-append n desc m rest h))

-- CharsToHttpMethod finds each of the 34 methods by its whole name, whatever follows the name in
-- the buffer.
pub chars_to-to_string :
    (m : ℕ) (rest : List ℕ)
    → m < 34
    → chars_to_http_method (http_method_to_string m ++ rest) (length (http_method_to_string m)) ≡ m
chars_to-to_string m rest h =
    chars-append (http_method_to_string m) rest (length (http_method_to_string m)) (omega arith)
    ∙ (==_iff _ m).0 (passes_lem named_whole 34 m h chars_table)

prefix_table : passes (λ m. passes (λ n. ltb (cut m n) 34) 12) 34 ≡ true
unfolding passes chars_to_http_method first_method strncmp_eq http_method_to_string
prefix_table = refl

-- Given the first `n` bytes of a method's name, `n` less than 12, the empty beginning and every
-- other proper one included, CharsToHttpMethod answers some valid method.
chars_to_accepts_prefix :
    (m n : ℕ) → m < 34 → n < 12 → chars_to_http_method (take n (http_method_to_string m)) n < 34
chars_to_accepts_prefix m n h k = ltb→lt _ 34 (
    passes_lem (λ i. ltb (cut m i) 34) 12 n k
      (passes_lem (λ j. passes (λ i. ltb (cut j i) 34) 12) 34 m h prefix_table))

-- The entries of a status table.
abbrev pub OneOf : ℕ → List ℕ → List (ℕ × List ℕ) → Type 0
OneOf c d [] = ⊥
OneOf c d ((status, desc) ∷ rest) = ((c ≡ status) × (d ≡ desc)) ⊎ OneOf c d rest

abbrev Ascending : ℕ → List (ℕ × List ℕ) → Type 0
Ascending n [] = Unit {0}
Ascending n ((status, desc) ∷ rest) = (n ≤ status) × Ascending (status + 1) rest

OneOf-le : (n c : ℕ) (d : List ℕ) (m : List (ℕ × List ℕ)) → Ascending n m → OneOf c d m → n ≤ c
OneOf-le n c d [] a o = elim o [ ]
OneOf-le n c d ((status, desc) ∷ rest) a (inl e) = omega (arith, e.0)
OneOf-le n c d ((status, desc) ∷ rest) a (inr o) =
    omega (arith, OneOf-le (status + 1) c d rest a.1 o)

switch_status-OneOf :
    (n c : ℕ) (d : List ℕ) (m : List (ℕ × List ℕ))
    → Ascending n m
    → OneOf c d m
    → switch_status c m ≡ d
unfolding switch_status
switch_status-OneOf n c d [] a o = elim o [ ]
switch_status-OneOf n c d ((status, desc) ∷ rest) a (inl e) = rw ((==_iff c status).1 e.0) (sym e.1)
switch_status-OneOf n c d ((status, desc) ∷ rest) a (inr o) =
    ground
      (arith, OneOf-le (status + 1) c d rest a.1 o, switch_status-OneOf (status + 1) c d rest a.1 o)

-- HttpStatusToString gives each code of the status table the reason phrase that stands beside it.
pub status_reason : (c : ℕ) (d : List ℕ) → OneOf c d http_status_map → http_status_to_string c ≡ d
unfolding http_status_to_string
status_reason c d o = switch_status-OneOf 0 c d http_status_map (omega arith) o
