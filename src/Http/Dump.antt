-- ===== src/Http/Dump.antt =====
-- HttpRequest::dump and HttpResponse::dump (yuan/http/http.cc), as the text that they write. How a
-- stream prints a number is a parameter.
mod Laws
mod Tests
use cpp_linux_server_frame.Base.{ℕ, ◌+◌, ◌/◌, ◌%◌, Bool, List, [], ◌∷◌, ◌++◌, if◌then◌else◌, length}
use cpp_linux_server_frame.Http.Cstring.{codes}
use cpp_linux_server_frame.Http.Headers.{MapType}
use cpp_linux_server_frame.Http.Method.{http_method_to_string, http_status_to_string}
use cpp_linux_server_frame.Http.Request.{is_connection, is_empty_text}

pub record HttpRequest : Type 0 where
  pub method : ℕ
  pub version : ℕ
  pub close : Bool
  pub path : List ℕ
  pub query : List ℕ
  pub fragment : List ℕ
  pub body : List ℕ
  pub headers : MapType

pub record HttpResponse : Type 0 where
  pub status : ℕ
  pub reason : List ℕ
  pub version : ℕ
  pub close : Bool
  pub body : List ℕ
  pub headers : MapType

-- "\r\n" in front of a text
abbrev pub crlf : List ℕ → List ℕ
crlf s = 13 ∷ 10 ∷ s

abbrev pub connection_line : Bool → List ℕ
connection_line close =
    codes "Connection: " ++ (if close then codes "close" else codes "keep-alive")

abbrev pub header_line : List ℕ → List ℕ → List ℕ
header_line key val = key ++ (b':' ∷ b' ' ∷ val)

-- The loop over the headers, in front of what is written behind it.
unfoldable pub dump_headers : MapType → List ℕ → List ℕ
dump_headers [] behind = behind
dump_headers ((key, val) ∷ l) behind =
    let more = dump_headers l behind in
    if is_connection key then more else header_line key val ++ crlf more

abbrev pub dump_body : List ℕ → List ℕ → List ℕ
dump_body length_line body = if is_empty_text body then crlf [] else length_line ++ crlf (crlf body)

-- A part that is left out where it is empty, and else has a sign in front.
abbrev pub behind_sign : ℕ → List ℕ → List ℕ
behind_sign sign s = if is_empty_text s then [] else sign ∷ s

module _ (print : ℕ → List ℕ) where
  abbrev pub version_text : ℕ → List ℕ
  version_text v = codes "HTTP/" ++ (print (v / 16) ++ (b'.' ∷ print (v % 16)))

  abbrev pub request_line : HttpRequest → List ℕ
  request_line r =
      http_method_to_string r.method
      ++ (b' '
          ∷ (r.path
              ++ (behind_sign b'?' r.query
                  ++ (behind_sign b'#' r.fragment ++ (b' ' ∷ version_text r.version)))))

  abbrev pub status_line : HttpResponse → List ℕ
  status_line r =
      version_text r.version
      ++ (b' '
          ∷ (print r.status
              ++ (b' '
                  ∷ (if is_empty_text r.reason then http_status_to_string r.status else r.reason))))

  abbrev pub request_length_line : List ℕ → List ℕ
  request_length_line body = codes "Content-Length:" ++ print (length body)

  abbrev pub response_length_line : List ℕ → List ℕ
  response_length_line body = codes "Content-Cength:" ++ print (length body)

  -- HttpRequest::dump
  unfoldable pub dump_request : HttpRequest → List ℕ
  dump_request r =
      request_line r
      ++ crlf (
          connection_line r.close
          ++ crlf (dump_headers r.headers (dump_body (request_length_line r.body) r.body)))

  -- HttpResponse::dump
  unfoldable pub dump_response : HttpResponse → List ℕ
  dump_response r =
      status_line r
      ++ crlf (
          connection_line r.close
          ++ crlf (dump_headers r.headers (dump_body (response_length_line r.body) r.body)))
