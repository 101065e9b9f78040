-- ===== src/Http/Request.antt =====
-- How HttpConnection::DoRequest fills the headers of a request (yuan/http/http_connection.cc).
pub mod Laws
mod Tests
use cpp_linux_server_frame.Base.{
  ℕ, ◌≡◌, ◌⊎◌, inl, inr, refl, ap, sym, subst, ◌∙◌, Bool, true, false, ◌&&◌, ◌||◌, not, List, [],
  ◌∷◌, Option, none, some, if◌then◌else◌, Bool-cases, branch, arith,
}
use cpp_linux_server_frame.Http.Cstring.{codes}
use cpp_linux_server_frame.Http.Headers.{MapType, equivalent, find, set}

-- strcasecmp(a, b) == 0 holds exactly where the map takes the keys for one.
abbrev pub is_connection : List ℕ → Bool
is_connection key = equivalent key (codes "connection")

abbrev pub is_host : List ℕ → Bool
is_host key = equivalent key (codes "host")

abbrev pub is_empty_text : List ℕ → Bool
is_empty_text [] = true
is_empty_text (x ∷ l) = false

-- The headers of the request and m_close, and has_host.
pub record Built : Type 0 where
  pub headers : MapType
  pub close : Bool
  pub has_host : Bool

-- One header of the argument.
unfoldable pub add_header : List ℕ → List ℕ → Built → Built
add_header key val b =
    if is_connection key
    then (if equivalent val (codes "keep-alive") then record b { close = false } else b)
    else record b {
      headers = set b.headers key val;
      has_host = if not b.has_host && is_host key then not (is_empty_text val) else b.has_host;
    }

unfoldable pub add_headers : MapType → Built → Built
add_headers [] b = b
add_headers ((key, val) ∷ l) b = add_headers l (add_header key val b)

-- The headers for a request to `host`.
unfoldable pub request_headers : MapType → List ℕ → Built
request_headers headers host =
    let b = add_headers headers (record { headers = []; close = true; has_host = false }) in
    if b.has_host then b else record b { headers = set b.headers (codes "Host") host }
