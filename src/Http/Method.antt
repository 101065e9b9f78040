-- ===== src/Http/Method.antt =====
-- HttpMethod and HttpStatus of yuan/http/http.h, and their conversions in yuan/http/http.cc. An
-- enumerator is its number, since the code casts integers to these types.
pub mod Names
use cpp_linux_server_frame.Base.{
  ℕ, zero, suc, ◌+◌, Bool, List, [], ◌∷◌, Option, none, some, ltb, leb, ◌==◌, if◌then◌else◌, length,
  get_elem?,
}
use cpp_linux_server_frame.Http.Cstring.{codes, strcmp_eq, strncmp_eq}

-- HTTP_METHOD_MAP: the entry at place `n` has the number `n`.
abbrev pub http_method_map : List (List ℕ)
http_method_map =
    codes "DELETE"
    ∷ codes "GET"
    ∷ codes "HEAD"
    ∷ codes "POST"
    ∷ codes "PUT"
    ∷ codes "CONNECT"
    ∷ codes "OPTIONS"
    ∷ codes "TRACE"
    ∷ codes "COPY"
    ∷ codes "LOCK"
    ∷ codes "MKCOL"
    ∷ codes "MOVE"
    ∷ codes "PROPFIND"
    ∷ codes "PROPPATCH"
    ∷ codes "SEARCH"
    ∷ codes "UNLOCK"
    ∷ codes "BIND"
    ∷ codes "REBIND"
    ∷ codes "UNBIND"
    ∷ codes "ACL"
    ∷ codes "REPORT"
    ∷ codes "MKACTIVITY"
    ∷ codes "CHECKOUT"
    ∷ codes "MERGE"
    ∷ codes "M-SEARCH"
    ∷ codes "NOTIFY"
    ∷ codes "SUBSCRIBE"
    ∷ codes "UNSUBSCRIBE"
    ∷ codes "PATCH"
    ∷ codes "PURGE"
    ∷ codes "MKCALENDAR"
    ∷ codes "LINK"
    ∷ codes "UNLINK"
    ∷ codes "SOURCE"
    ∷ []

-- HttpMethod::INVALID_METHOD
abbrev pub invalid_method : ℕ
invalid_method = 34

-- The chain of tests that the macros make: the first entry that passes, from number `n` on.
unfoldable pub first_method : (List ℕ → Bool) → List (List ℕ) → ℕ → ℕ
first_method test [] n = invalid_method
first_method test (desc ∷ rest) n = if test desc then n else first_method test rest (n + 1)

unfoldable pub string_to_http_method : List ℕ → ℕ
string_to_http_method m = first_method (λ desc. strcmp_eq desc m) http_method_map 0

unfoldable pub chars_to_http_method : List ℕ → ℕ → ℕ
chars_to_http_method m len = first_method (λ desc. strncmp_eq len desc m) http_method_map 0

abbrev pub or_invalid : Option (List ℕ) → List ℕ
or_invalid none = codes "INVALID_METHOD"
or_invalid (some desc) = desc

-- s_method_string ends with "INVALID_METHOD", which is also the answer behind its end.
unfoldable pub http_method_to_string : ℕ → List ℕ
http_method_to_string hm = or_invalid (get_elem? http_method_map hm)

-- HTTP_STATUS_MAP
abbrev pub http_status_map : List (ℕ × List ℕ)
http_status_map =
    (100, codes "Continue")
    ∷ (101, codes "Switching Protocols")
    ∷ (102, codes "Processing")
    ∷ (200, codes "OK")
    ∷ (201, codes "Created")
    ∷ (202, codes "Accepted")
    ∷ (203, codes "Non-Authoritative Information")
    ∷ (204, codes "No Content")
    ∷ (205, codes "Reset Content")
    ∷ (206, codes "Partial Content")
    ∷ (207, codes "Multi-Status")
    ∷ (208, codes "Already Reported")
    ∷ (226, codes "IM Used")
    ∷ (300, codes "Multiple Choices")
    ∷ (301, codes "Moved Permanently")
    ∷ (302, codes "Found")
    ∷ (303, codes "See Other")
    ∷ (304, codes "Not Modified")
    ∷ (305, codes "Use Proxy")
    ∷ (307, codes "Temporary Redirect")
    ∷ (308, codes "Permanent Redirect")
    ∷ (400, codes "Bad Request")
    ∷ (401, codes "Unauthorized")
    ∷ (402, codes "Payment Required")
    ∷ (403, codes "Forbidden")
    ∷ (404, codes "Not Found")
    ∷ (405, codes "Method Not Allowed")
    ∷ (406, codes "Not Acceptable")
    ∷ (407, codes "Proxy Authentication Required")
    ∷ (408, codes "Request Timeout")
    ∷ (409, codes "Conflict")
    ∷ (410, codes "Gone")
    ∷ (411, codes "Length Required")
    ∷ (412, codes "Precondition Failed")
    ∷ (413, codes "Payload Too Large")
    ∷ (414, codes "URI Too Long")
    ∷ (415, codes "Unsupported Media Type")
    ∷ (416, codes "Range Not Satisfiable")
    ∷ (417, codes "Expectation Failed")
    ∷ (421, codes "Misdirected Request")
    ∷ (422, codes "Unprocessable Entity")
    ∷ (423, codes "Locked")
    ∷ (424, codes "Failed Dependency")
    ∷ (426, codes "Upgrade Required")
    ∷ (428, codes "Precondition Required")
    ∷ (429, codes "Too Many Requests")
    ∷ (431, codes "Request Header Fields Too Large")
    ∷ (451, codes "Unavailable For Legal Reasons")
    ∷ (500, codes "Internal Server Error")
    ∷ (501, codes "Not Implemented")
    ∷ (502, codes "Bad Gateway")
    ∷ (503, codes "Service Unavailable")
    ∷ (504, codes "Gateway Timeout")
    ∷ (505, codes "HTTP Version Not Supported")
    ∷ (506, codes "Variant Also Negotiates")
    ∷ (507, codes "Insufficient Storage")
    ∷ (508, codes "Loop Detected")
    ∷ (510, codes "Not Extended")
    ∷ (511, codes "Network Authentication Required")
    ∷ []

-- The cases of a switch over the status codes.
unfoldable pub switch_status : ℕ → List (ℕ × List ℕ) → List ℕ
switch_status hm [] = codes "<unknown>"
switch_status hm ((status, desc) ∷ rest) = if hm == status then desc else switch_status hm rest

unfoldable pub http_status_to_string : ℕ → List ℕ
http_status_to_string hm = switch_status hm http_status_map
