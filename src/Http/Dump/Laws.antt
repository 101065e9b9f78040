-- ===== src/Http/Dump/Laws.antt =====
-- What a reader who cuts a dump at its line ends finds.
use cpp_linux_server_frame.Base.{
  ap₂, ◌/◌, ◌%◌, length, ℕ, ◌≡◌, refl, ap, ◌∙◌, inl, inr, Bool, true, false, ◌&&◌, not, List, [],
  ◌∷◌, ◌++◌, append_assoc, if◌then◌else◌, ◌==◌, Bool-cases, arith,
}
use cpp_linux_server_frame.Http.Cstring.{codes}
use cpp_linux_server_frame.Http.Headers.{MapType, equivalent}
use cpp_linux_server_frame.Http.Method.{http_method_to_string, http_status_to_string}
use cpp_linux_server_frame.Http.Request.{is_connection, is_empty_text}
use cpp_linux_server_frame.Http.Dump.{
  HttpRequest, HttpResponse, crlf, connection_line, dump_headers, dump_body, behind_sign,
  request_line, status_line, request_length_line, response_length_line, dump_request, dump_response,
}

-- The lines up to the first empty one, and the text behind it; `line` is what the line has so far.
unfoldable pub cut : List ℕ → List ℕ → List (List ℕ) × List ℕ
cut line [] = ([], [])
cut line (c ∷ []) = ([], [])
cut line (c ∷ d ∷ s) =
    let more = cut (line ++ c ∷ []) (d ∷ s) in
    let next = cut [] s in
    if c == 13 && d == 10
    then if is_empty_text line then ([], s) else (line ∷ next.0, next.1)
    else more

abbrev pub no_cr : List ℕ → Bool
no_cr [] = true
no_cr (c ∷ s) = not (c == 13) && no_cr s

abbrev pub IsLine : List ℕ → Type 0
IsLine s = (no_cr s ≡ true) × (is_empty_text s ≡ false)

cut_end :
    (line s : List ℕ)
    → is_empty_text line ≡ false
    → cut line (crlf s) ≡ (line ∷ (cut [] s).0, (cut [] s).1)
unfolding cut
cut_end line s h = rw h refl

cut_step :
    (line : List ℕ) (c d : ℕ) (s : List ℕ)
    → (c == 13) ≡ false
    → cut line (c ∷ d ∷ s) ≡ cut (line ++ c ∷ []) (d ∷ s)
unfolding cut
cut_step line c d s h = rw h refl

nonempty_append : (line : List ℕ) (c : ℕ) → is_empty_text (line ++ c ∷ []) ≡ false
nonempty_append [] c = refl
nonempty_append (x ∷ line) c = refl

cut_line_from :
    (line : List ℕ) (c : ℕ) (l s : List ℕ)
    → no_cr (c ∷ l) ≡ true
    → cut line ((c ∷ l) ++ crlf s) ≡ ((line ++ (c ∷ l)) ∷ (cut [] s).0, (cut [] s).1)
cut_line_from line c [] s h =
    cut_step line c 13 (10 ∷ s) (ground arith) ∙ cut_end (line ++ c ∷ []) s (nonempty_append line c)
cut_line_from line c (d ∷ l) s h =
    cut_step line c d (l ++ crlf s) (ground arith)
    ∙ cut_line_from (line ++ c ∷ []) d l s (ground arith)
    ∙ ap (λ (x : List ℕ). (x ∷ (cut [] s).0, (cut [] s).1)) (append_assoc line (c ∷ []) (d ∷ l))

cut_line : (l s : List ℕ) → IsLine l → cut [] (l ++ crlf s) ≡ (l ∷ (cut [] s).0, (cut [] s).1)
cut_line [] s h = cc
cut_line (c ∷ l) s h = cut_line_from [] c l s h.0

cut_blank : (s : List ℕ) → cut [] (crlf s) ≡ ([], s)
unfolding cut
cut_blank s = refl

-- The lines as a reader expects them, written out.
abbrev pub told_connection : Bool → List ℕ
told_connection true = codes "Connection: close"
told_connection false = codes "Connection: keep-alive"

abbrev pub told_header : List ℕ → List ℕ → List ℕ
told_header key val = key ++ (codes ": " ++ val)

-- The lines of the headers, the connection left out, and of the length of a body.
abbrev pub header_lines : MapType → List (List ℕ) → List (List ℕ)
header_lines [] behind = behind
header_lines ((key, val) ∷ l) behind =
    let more = header_lines l behind in
    if equivalent key (codes "connection") then more else told_header key val ∷ more

abbrev pub length_lines : List ℕ → List ℕ → List (List ℕ)
length_lines line [] = []
length_lines line (x ∷ body) = line ∷ []

abbrev pub AreLines : MapType → Type 0
AreLines [] = Unit {0}
AreLines ((key, val) ∷ l) = IsLine (told_header key val) × AreLines l

told_connection_lem : (b : Bool) → connection_line b ≡ told_connection b
told_connection_lem true = refl
told_connection_lem false = refl

cut-dump_body :
    (line body : List ℕ)
    → IsLine line
    → cut [] (dump_body line body) ≡ (length_lines line body, body)
cut-dump_body line [] h = cut_blank []
cut-dump_body line (x ∷ body) h =
    cut_line line (crlf (x ∷ body)) h
    ∙ ap (λ (r : List (List ℕ) × List ℕ). (line ∷ r.0, r.1)) (cut_blank (x ∷ body))

cut-dump_headers :
    (l : MapType) (behind : List ℕ) (lines : List (List ℕ)) (body : List ℕ)
    → AreLines l
    → cut [] behind ≡ (lines, body)
    → cut [] (dump_headers l behind) ≡ (header_lines l lines, body)
unfolding dump_headers
cut-dump_headers [] behind lines body h e = e
cut-dump_headers ((key, val) ∷ l) behind lines body h e =
    let rest = cut-dump_headers l behind lines body h.1 e in
    elim (Bool-cases (is_connection key)) [
      | inl g ↦ rw g rest
      | inr g ↦ rw g (
          cut_line (told_header key val) (dump_headers l behind) h.0
          ∙ ap (λ (r : List (List ℕ) × List ℕ). (told_header key val ∷ r.0, r.1)) rest)
    ]

connection_line-IsLine : (b : Bool) → IsLine (connection_line b)
connection_line-IsLine true = (refl, refl)
connection_line-IsLine false = (refl, refl)

cut-dump :
    (first line body : List ℕ) (b : Bool) (l : MapType)
    → IsLine first
    → AreLines l
    → IsLine line
    → cut [] (first ++ crlf (connection_line b ++ crlf (dump_headers l (dump_body line body))))
      ≡ (first ∷ told_connection b ∷ header_lines l (length_lines line body), body)
cut-dump first line body b l hf hl hb =
    cut_line first _ hf
    ∙ ap (λ (r : List (List ℕ) × List ℕ). (first ∷ r.0, r.1))
        (cut_line (connection_line b) _ (connection_line-IsLine b)
          ∙ ap (λ (r : List (List ℕ) × List ℕ). (connection_line b ∷ r.0, r.1))
              (cut-dump_headers l _ _ body hl (cut-dump_body line body hb))
          ∙ ap (λ (x : List ℕ). (x ∷ header_lines l (length_lines line body), body))
              (told_connection_lem b))

module _ (print : ℕ → List ℕ) where
  abbrev pub told_length : List ℕ → List ℕ → List ℕ
  told_length name body = name ++ print (length body)

  -- "HTTP/", the high four bits of the version, a point and the low four bits
  abbrev pub told_version : ℕ → List ℕ
  told_version v = codes "HTTP/" ++ (print (v / 16) ++ (codes "." ++ print (v % 16)))

  abbrev pub after_sign : List ℕ → List ℕ → List ℕ
  after_sign sign [] = []
  after_sign sign (x ∷ s) = sign ++ (x ∷ s)

  abbrev pub told_request : HttpRequest → List ℕ
  told_request q =
      http_method_to_string q.method
      ++ (codes " "
          ++ (q.path
              ++ (after_sign (codes "?") q.query
                  ++ (after_sign (codes "#") q.fragment ++ (codes " " ++ told_version q.version)))))

  abbrev pub told_reason : ℕ → List ℕ → List ℕ
  told_reason status [] = http_status_to_string status
  told_reason status (x ∷ s) = x ∷ s

  abbrev pub told_status : HttpResponse → List ℕ
  told_status r =
      told_version r.version
      ++ (codes " " ++ (print r.status ++ (codes " " ++ told_reason r.status r.reason)))

  behind_sign_lem : (x : ℕ) (s : List ℕ) → behind_sign x s ≡ after_sign (x ∷ []) s
  behind_sign_lem x [] = refl
  behind_sign_lem x (y ∷ s) = refl

  told_request_lem : (q : HttpRequest) → request_line print q ≡ told_request q
  told_request_lem q =
      ap₂
        (λ (a b : List ℕ).
          http_method_to_string q.method
          ++ (codes " " ++ (q.path ++ (a ++ (b ++ (codes " " ++ told_version q.version))))))
        (behind_sign_lem b'?' q.query) (behind_sign_lem b'#' q.fragment)

  reason_lem :
      (n : ℕ) (s : List ℕ)
      → (if is_empty_text s then http_status_to_string n else s) ≡ told_reason n s
  reason_lem n [] = refl
  reason_lem n (x ∷ s) = refl

  told_status_lem : (r : HttpResponse) → status_line print r ≡ told_status r
  told_status_lem r =
      ap
        (λ (a : List ℕ).
          told_version r.version ++ (codes " " ++ (print r.status ++ (codes " " ++ a))))
        (reason_lem r.status r.reason)

  -- Where no text of a request and of a response holds a carriage return, their dumps, cut at "\r\n"
  -- up to the empty line, are these lines: the request's is method, path, "?" and the query and "#"
  -- and the fragment where they are not empty, and version, the response's is version, status and the
  -- reason, or the usual one for the status where it is empty; then one line Connection, with close
  -- or keep-alive; the headers but Connection, in order; and, where the body is not empty, the line of
  -- its length, which a request names Content-Length and a response Content-Cength. Behind the empty
  -- line stands exactly the body.
  pub cut-dump_request :
      (q : HttpRequest) (r : HttpResponse)
      → IsLine (told_request q)
      → IsLine (told_status r)
      → IsLine (told_length (codes "Content-Length:") q.body)
      → IsLine (told_length (codes "Content-Cength:") r.body)
      → AreLines q.headers
      → AreLines r.headers
      → (cut [] (dump_request print q) ≡ (
        told_request q
            ∷ told_connection q.close
            ∷ header_lines q.headers
                (length_lines (told_length (codes "Content-Length:") q.body) q.body),
        q.body,
      ))
        × (cut [] (dump_response print r) ≡ (
          told_status r
              ∷ told_connection r.close
              ∷ header_lines r.headers
                  (length_lines (told_length (codes "Content-Cength:") r.body) r.body),
          r.body,
        ))
  unfolding dump_request dump_response
  cut-dump_request q r h1 h2 h3 h4 h5 h6 = (
    ap
          (λ (x : List ℕ). cut [] (
            x
            ++ crlf (
                connection_line q.close
                ++ crlf (
                    dump_headers q.headers (dump_body (request_length_line print q.body) q.body)))))
          (told_request_lem q)
        ∙ cut-dump (told_request q) (request_length_line print q.body) q.body q.close q.headers h1
            h5 h3,
    ap
          (λ (x : List ℕ). cut [] (
            x
            ++ crlf (
                connection_line r.close
                ++ crlf (
                    dump_headers r.headers
                      (dump_body (response_length_line print r.body) r.body)))))
          (told_status_lem r)
        ∙ cut-dump (told_status r) (response_length_line print r.body) r.body r.close r.headers h2
            h6 h4,
  )
