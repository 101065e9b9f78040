-- ===== src/Http/Headers.antt =====
-- The map type of HttpRequest and HttpResponse: std::map with the order CaseInsensitive
-- (yuan/http/http.h, yuan/http/http.cc), as the list of its pairs in that order.
pub mod Laws
use cpp_linux_server_frame.Base.{
  ℕ, Bool, true, false, ◌&&◌, not, List, [], ◌∷◌, Option, none, some, if◌then◌else◌,
}
use cpp_linux_server_frame.Http.Cstring.{strcasecmp_lt}

abbrev pub MapType : Type 0
MapType = List (List ℕ × List ℕ)

-- CaseInsensitive::operator()
unfoldable pub case_insensitive : List ℕ → List ℕ → Bool
case_insensitive lhs rhs = strcasecmp_lt lhs rhs

-- Two keys that the map takes for one.
abbrev pub equivalent : List ℕ → List ℕ → Bool
equivalent a b = not (case_insensitive a b) && not (case_insensitive b a)

unfoldable pub find : MapType → List ℕ → Option (List ℕ)
find [] key = none
find ((k, v) ∷ m) key = if equivalent k key then some v else find m key

-- `m[key] = val`: a key that is there keeps its spelling.
unfoldable pub set : MapType → List ℕ → List ℕ → MapType
set [] key val = (key, val) ∷ []
set ((k, v) ∷ m) key val =
    if case_insensitive key k
    then (key, val) ∷ (k, v) ∷ m
    else if case_insensitive k key
    then (k, v) ∷ set m key val
    else (k, val) ∷ m

unfoldable pub erase : MapType → List ℕ → MapType
erase [] key = []
erase ((k, v) ∷ m) key = if equivalent k key then m else (k, v) ∷ erase m key

abbrev pub or_default {ℓ} : {A : Type ℓ} → Option A → A → A
or_default none def = def
or_default (some a) def = a

-- getHeader, getParam, getCookie
unfoldable pub get_header : MapType → List ℕ → List ℕ → List ℕ
get_header m key def = or_default (find m key) def

-- hasHeader, hasParam, hasCookie: the answer, and what `*val` becomes from `val`
unfoldable pub has_header : MapType → List ℕ → List ℕ → Bool × List ℕ
has_header m key val = elim (find m key) [ none ↦ (false, val) | some v ↦ (true, v) ]

module _ {ℓ} {A : Type ℓ} (lexical_cast : List ℕ → Option A) where
  -- checkGetAs; a throw of lexical_cast is `none`
  unfoldable pub check_get_as : MapType → List ℕ → A → Bool × A
  check_get_as m key def = elim (find m key) [
    | none ↦ (false, def)
    | some text ↦ elim (lexical_cast text) [ none ↦ (false, def) | some val ↦ (true, val) ]
  ]

  unfoldable pub get_as : MapType → List ℕ → A → A
  get_as m key def = elim (find m key) [
    | none ↦ def
    | some text ↦ or_default (lexical_cast text) def
  ]
