-- ===== src/Http/Request/Tests.antt =====
-- The theorem at a concrete input.
use cpp_linux_server_frame.Base.{◌≡◌, refl, false, [], ◌∷◌}
use cpp_linux_server_frame.Http.Cstring.{codes, strcasecmp_lt, fold, lex_lt}
use cpp_linux_server_frame.Http.Headers.{MapType, case_insensitive, set}
use cpp_linux_server_frame.Http.Request.{add_header, add_headers, request_headers}
use cpp_linux_server_frame.Http.Request.Laws.{Requested, request_headers-Requested}

abbrev headers : MapType
headers = (codes "Accept", codes "*") ∷ (codes "CONNECTION", codes "Keep-Alive") ∷ []

stays_open : (request_headers headers (codes "a.b")).close ≡ false
unfolding request_headers add_headers add_header case_insensitive strcasecmp_lt fold lex_lt set
stays_open = refl

request_headers-Requested_example : Requested headers (request_headers headers (codes "a.b"))
request_headers-Requested_example = request_headers-Requested headers (codes "a.b")
