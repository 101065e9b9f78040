-- ===== src/Http/Request/Laws.antt =====
-- Every request has a host and no header for the connection.
use cpp_linux_server_frame.Base.{
  ℕ, ◌≡◌, inl, inr, refl, ap, sym, subst, ◌∙◌, Bool, true, false, ◌&&◌, not, List, [], ◌∷◌, Option,
  none, some, if◌then◌else◌, Bool-cases, branch, arith,
}
use cpp_linux_server_frame.Http.Cstring.{codes, strcasecmp_lt, fold, lex_lt}
use cpp_linux_server_frame.Http.Headers.{MapType, case_insensitive, equivalent, find, set}
use cpp_linux_server_frame.Http.Headers.Laws.{find-set, equivalent_sym, equivalent_trans}
use cpp_linux_server_frame.Http.Request.{
  is_connection, is_host, is_empty_text, Built, add_header, add_headers, request_headers,
}

-- A header of the argument, the last where its name comes more than once.
abbrev pub latest : MapType → List ℕ → Option (List ℕ) → Option (List ℕ)
latest [] j found = found
latest ((key, val) ∷ l) j found = latest l j (if equivalent key j then some val else found)

add_header-connection :
    (key val : List ℕ) (b : Built)
    → find (add_header key val b).headers (codes "connection") ≡ find b.headers (codes "connection")
unfolding add_header
add_header-connection key val b =
    branch
      (λ (r : Built). find r.headers (codes "connection") ≡ find b.headers (codes "connection"))
      (is_connection key) _ _
      (λ _.
        branch
          (λ (r : Built). find r.headers (codes "connection") ≡ find b.headers (codes "connection"))
          (equivalent val (codes "keep-alive")) _ _ (λ _. refl) (λ _. refl))
      (λ h.
        find-set b.headers key val (codes "connection")
        ∙ ap (λ (c : Bool). if c then some val else find b.headers (codes "connection")) h)

add_headers-connection :
    (l : MapType) (b : Built)
    → find (add_headers l b).headers (codes "connection") ≡ find b.headers (codes "connection")
unfolding add_headers
add_headers-connection [] b = refl
add_headers-connection ((key, val) ∷ l) b =
    add_headers-connection l (add_header key val b) ∙ add_header-connection key val b

clash : {b : Bool} → b ≡ true → b ≡ false → ⊥
clash p q = cc

add_header-find :
    (key val j : List ℕ) (b : Built)
    → is_connection j ≡ false
    → find (add_header key val b).headers j
      ≡ (if equivalent key j then some val else find b.headers j)
unfolding add_header
add_header-find key val j b n =
    branch
      (λ (r : Built). find r.headers j ≡ (if equivalent key j then some val else find b.headers j))
      (is_connection key) _ _
      (λ h.
        branch
          (λ (r : Built).
            find r.headers j ≡ (if equivalent key j then some val else find b.headers j))
          (equivalent val (codes "keep-alive")) _ _ (λ _. unchanged h) (λ _. unchanged h))
      (λ h. find-set b.headers key val j)
  where
    other : is_connection key ≡ true → equivalent key j ≡ false
    other h =
        sym (equivalent_trans key (codes "connection") j h)
        ∙ equivalent_sym (codes "connection") j
        ∙ n

    unchanged :
        is_connection key ≡ true
        → find b.headers j ≡ (if equivalent key j then some val else find b.headers j)
    unchanged h = ap (λ (c : Bool). if c then some val else find b.headers j) (sym (other h))

add_headers-latest :
    (l : MapType) (j : List ℕ) (b : Built)
    → is_connection j ≡ false
    → find (add_headers l b).headers j ≡ latest l j (find b.headers j)
unfolding add_headers
add_headers-latest [] j b n = refl
add_headers-latest ((key, val) ∷ l) j b n =
    add_headers-latest l j (add_header key val b) n
    ∙ ap (latest l j) (add_header-find key val j b n)

-- has_host is true only where a host has been set.
abbrev pub HasHost : MapType → Type 0
HasHost m = (v : List ℕ) × (find m (codes "host") ≡ some v)

Hosted : Built → Type 0
Hosted b = b.has_host ≡ true → HasHost b.headers

host_not_connection : is_connection (codes "host") ≡ false
unfolding case_insensitive strcasecmp_lt fold lex_lt
host_not_connection = refl

host_is_host : equivalent (codes "Host") (codes "host") ≡ true
unfolding case_insensitive strcasecmp_lt fold lex_lt
host_is_host = refl

add_header-Hosted : (key val : List ℕ) (b : Built) → Hosted b → Hosted (add_header key val b)
unfolding add_header Hosted
add_header-Hosted key val b v =
    branch (λ (r : Built). r.has_host ≡ true → HasHost r.headers) (is_connection key) _ _
      (λ _.
        branch (λ (r : Built). r.has_host ≡ true → HasHost r.headers)
          (equivalent val (codes "keep-alive")) _ _ (λ _. v) (λ _. v))
      (λ _ t. elim (Bool-cases (is_host key)) [
        | inl h ↦ (
          val,
          find-set b.headers key val (codes "host")
              ∙ ap (λ (c : Bool). if c then some val else find b.headers (codes "host")) h,
        )
        | inr h ↦
            let (w, e) = v (had_host h t) in
            (
              w,
              find-set b.headers key val (codes "host")
                  ∙ ap (λ (c : Bool). if c then some val else find b.headers (codes "host")) h
                  ∙ e,
            )
      ])
  where
    had_host :
        is_host key ≡ false
        → (if not b.has_host && is_host key then not (is_empty_text val) else b.has_host) ≡ true
        → b.has_host ≡ true
    had_host h t = ground arith

add_headers-Hosted : (l : MapType) (b : Built) → Hosted b → Hosted (add_headers l b)
unfolding add_headers
add_headers-Hosted [] b v = v
add_headers-Hosted ((key, val) ∷ l) b v =
    add_headers-Hosted l (add_header key val b) (add_header-Hosted key val b v)

-- The headers of a request with the argument `headers`.
pub record Requested (headers : MapType) (r : Built) : Type 0 where
  pub no_connection : find r.headers (codes "connection") ≡ none
  pub has_host : HasHost r.headers
  pub others :
      (j : List ℕ)
      → is_connection j ≡ false
      → is_host j ≡ false
      → find r.headers j ≡ latest headers j none

connection_not_host : equivalent (codes "Host") (codes "connection") ≡ false
unfolding case_insensitive strcasecmp_lt fold lex_lt
connection_not_host = refl

-- For every map of headers, the request that DoRequest builds has no header Connection and has a
-- header Host; every other name has the value that the map gives it last, or none, under every
-- spelling.
pub request_headers-Requested :
    (headers : MapType) (host : List ℕ) → Requested headers (request_headers headers host)
unfolding request_headers Hosted find
request_headers-Requested headers host = elim (Bool-cases added.has_host) [
  | inl h ↦
      subst (Requested headers)
        (ap
          (λ (c : Bool).
            if c then added else record added { headers = set added.headers (codes "Host") host })
          (sym h))
        (record {
          no_connection = add_headers-connection headers started;
          has_host = add_headers-Hosted headers started (λ x. cc) h;
          others = λ j n m. add_headers-latest headers j started n;
        })
  | inr h ↦
      subst (Requested headers)
        (ap
          (λ (c : Bool).
            if c then added else record added { headers = set added.headers (codes "Host") host })
          (sym h))
        (record {
          no_connection =
              set_host (codes "connection") connection_not_host
              ∙ add_headers-connection headers started;
          has_host = (
            host,
            find-set added.headers (codes "Host") host (codes "host")
                ∙ ap (λ (c : Bool). if c then some host else find added.headers (codes "host"))
                    host_is_host,
          );
          others = λ j n m.
              set_host j (
                sym (equivalent_trans (codes "Host") (codes "host") j host_is_host)
                ∙ equivalent_sym (codes "host") j
                ∙ m)
              ∙ add_headers-latest headers j started n;
        })
]
  where
    started : Built
    started = record { headers = []; close = true; has_host = false }

    added : Built
    added = add_headers headers started

    set_host :
        (j : List ℕ)
        → equivalent (codes "Host") j ≡ false
        → find (set added.headers (codes "Host") host) j ≡ find added.headers j
    set_host j n =
        find-set added.headers (codes "Host") host j
        ∙ ap (λ (c : Bool). if c then some host else find added.headers j) n
