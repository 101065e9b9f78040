-- ===== src/Http/Cstring.antt =====
-- C strings as lists of bytes, and the comparisons of <string.h> that yuan/http uses. A NUL byte
-- or the end of the list ends a string.
use Prim.Native.Char.{code}
use Prim.Native.String.{String}
use cpp_linux_server_frame.Base.{
  ℕ, zero, suc, ◌+◌, Bool, true, false, ◌&&◌, ◌||◌, List, [], ◌∷◌, ltb, leb, ◌==◌, if◌then◌else◌,
}

-- The bytes of an ASCII literal.
abbrev pub codes : String → List ℕ
codes String.[] = []
codes (String.◌∷◌ c s) = code c ∷ codes s

-- strncmp(a, b, n) == 0
unfoldable pub strncmp_eq : ℕ → List ℕ → List ℕ → Bool
strncmp_eq zero a b = true
strncmp_eq (suc n) [] [] = true
strncmp_eq (suc n) [] (y ∷ b) = y == 0
strncmp_eq (suc n) (x ∷ a) [] = x == 0
strncmp_eq (suc n) (x ∷ a) (y ∷ b) = x == y && (x == 0 || strncmp_eq n a b)

-- strcmp(a, b) == 0
unfoldable pub strcmp_eq : List ℕ → List ℕ → Bool
strcmp_eq [] [] = true
strcmp_eq [] (y ∷ b) = y == 0
strcmp_eq (x ∷ a) [] = x == 0
strcmp_eq (x ∷ a) (y ∷ b) = x == y && (x == 0 || strcmp_eq a b)

-- tolower in the C locale
abbrev pub to_lower : ℕ → ℕ
to_lower c = if leb b'A' c && leb c b'Z' then c + 32 else c

-- What strcasecmp compares of a string.
unfoldable pub fold : List ℕ → List ℕ
fold [] = []
fold (x ∷ s) = if x == 0 then [] else to_lower x ∷ fold s

unfoldable pub lex_lt : List ℕ → List ℕ → Bool
lex_lt [] [] = false
lex_lt [] (y ∷ b) = true
lex_lt (x ∷ a) [] = false
lex_lt (x ∷ a) (y ∷ b) = ltb x y || (x == y && lex_lt a b)

-- strcasecmp(a, b) < 0
unfoldable pub strcasecmp_lt : List ℕ → List ℕ → Bool
strcasecmp_lt a b = lex_lt (fold a) (fold b)
