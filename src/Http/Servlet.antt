-- ===== src/Http/Servlet.antt =====
-- ServletDispatch of yuan/http/servlet.h and yuan/http/servlet.cc. A Servlet::ptr is an option, null
-- is `none`; an unordered_map and a vector of pairs are lists of pairs. The lock makes each member
-- function one step.
pub mod Laws
use cpp_linux_server_frame.Base.{
  ℕ, Bool, true, false, ◌&&◌, List, [], ◌∷◌, ◌++◌, Option, none, some, ◌==◌, if◌then◌else◌,
}

-- std::string::operator==
unfoldable pub string_eq : List ℕ → List ℕ → Bool
string_eq [] [] = true
string_eq [] (y ∷ b) = false
string_eq (x ∷ a) [] = false
string_eq (x ∷ a) (y ∷ b) = x == y && string_eq a b

module _ {S : Type 0} where
  -- `m_datas[uri] = slt`
  unfoldable pub assign : List (List ℕ × Option S) → List ℕ → Option S → List (List ℕ × Option S)
  assign [] uri slt = (uri, slt) ∷ []
  assign ((k, s) ∷ m) uri slt = if string_eq k uri then (k, slt) ∷ m else (k, s) ∷ assign m uri slt

  -- The first pair with this key goes: m_datas.erase(uri), and the loop of delGlobServlet.
  unfoldable pub erase_first : List (List ℕ × Option S) → List ℕ → List (List ℕ × Option S)
  erase_first [] uri = []
  erase_first ((k, s) ∷ m) uri = if string_eq k uri then m else (k, s) ∷ erase_first m uri

  -- The servlet of the first pair whose key passes; nullptr when none does.
  unfoldable pub first_servlet : (List ℕ → Bool) → List (List ℕ × Option S) → Option S
  first_servlet test [] = none
  first_servlet test ((k, s) ∷ m) = if test k then s else first_servlet test m

pub record ServletDispatch (S : Type 0) : Type 0 where
  pub datas : List (List ℕ × Option S)
  pub globs : List (List ℕ × Option S)
  pub default : Option S

-- `not_found` is the NotFoundServlet that the constructor makes.
module _ {S : Type 0} where
  unfoldable pub new_dispatch : S → ServletDispatch S
  new_dispatch not_found = record { datas = []; globs = []; default = some not_found }

  unfoldable pub add_servlet : ServletDispatch S → List ℕ → Option S → ServletDispatch S
  add_servlet d uri slt = record d { datas = assign d.datas uri slt }

  -- The loop overwrites the servlet of the same pattern, else the pair goes to the end.
  unfoldable pub add_glob_servlet : ServletDispatch S → List ℕ → Option S → ServletDispatch S
  add_glob_servlet d uri slt = record d { globs = assign d.globs uri slt }

  unfoldable pub del_servlet : ServletDispatch S → List ℕ → ServletDispatch S
  del_servlet d uri = record d { datas = erase_first d.datas uri }

  unfoldable pub del_glob_servlet : ServletDispatch S → List ℕ → ServletDispatch S
  del_glob_servlet d uri = record d { globs = erase_first d.globs uri }

  unfoldable set_default_servlet : ServletDispatch S → Option S → ServletDispatch S
  set_default_servlet d slt = record d { default = slt }

  unfoldable pub get_servlet : ServletDispatch S → List ℕ → Option S
  get_servlet d uri = first_servlet (λ k. string_eq k uri) d.datas

  abbrev pub or_else : Option S → Option S → Option S
  or_else none t = t
  or_else (some s) t = some s

  -- `fnmatch pattern uri` is `fnmatch(pattern, uri, 0) == 0` of the C library.
  module _ (fnmatch : List ℕ → List ℕ → Bool) where
    unfoldable pub get_glob_servlet : ServletDispatch S → List ℕ → Option S
    get_glob_servlet d uri = first_servlet (λ k. fnmatch k uri) d.globs

    -- Exact match, then patterns, then the default.
    unfoldable pub get_matched_servlet : ServletDispatch S → List ℕ → Option S
    get_matched_servlet d uri =
        or_else (get_servlet d uri) (or_else (get_glob_servlet d uri) d.default)

    -- `run` is Servlet::handle; it acts on the request, the response and the session.
    unfoldable pub handle {ℓ} :
        {R : Type ℓ} (run : S → R → R) → ServletDispatch S → List ℕ → R → R × ℕ
    handle run d path r = elim (get_matched_servlet d path) [
      | none ↦ (r, 0)
      | some slt ↦ (run slt r, 0)
    ]
