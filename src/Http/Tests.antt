-- ===== src/Http/Tests.antt =====
-- Runs of the code of yuan/http, and the theorems at concrete inputs.
use cpp_linux_server_frame.Base.{ℕ, refl, Bool, true, List, [], ◌∷◌, some, if◌then◌else◌}
use cpp_linux_server_frame.Http.Cstring.{codes, fold, lex_lt, strcasecmp_lt}
use cpp_linux_server_frame.Http.Headers.{MapType, case_insensitive}
use cpp_linux_server_frame.Http.Headers.Laws.{IsSorted}
use cpp_linux_server_frame.Http.Servlet.{string_eq, ServletDispatch}
use cpp_linux_server_frame.Http.Servlet.Laws.{IsDistinct}

-- Headers.
abbrev some_headers : MapType
some_headers = (codes "Accept", codes "*") ∷ (codes "Host", codes "a") ∷ []

some_headers-IsSorted : IsSorted some_headers
unfolding case_insensitive strcasecmp_lt lex_lt fold
some_headers-IsSorted = ((refl, tt), (tt, tt))

-- Servlets, named by numbers. The pattern matching of these tests accepts every path for "*".
abbrev all_or_same : List ℕ → List ℕ → Bool
all_or_same pattern path = if string_eq pattern (codes "*") then true else string_eq pattern path

abbrev dispatch : ServletDispatch ℕ
dispatch = record {
  datas = (codes "/a", some 1) ∷ (codes "/b", some 2) ∷ [];
  globs = (codes "*", some 3) ∷ [];
  default = some 4;
}

dispatch-IsDistinct : IsDistinct dispatch
unfolding string_eq
dispatch-IsDistinct = (((refl, tt), (tt, tt)), (tt, tt))
