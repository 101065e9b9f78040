-- ===== src/Http/Servlet/Laws.antt =====
-- Which servlet answers a request.
use cpp_linux_server_frame.Base.{
  ℕ, ◌≡◌, refl, ap, sym, ◌≢◌, inl, inr, Bool, true, false, List, [], ◌∷◌, Option, none, some,
  if◌then◌else◌, Bool-cases, arith,
}
use cpp_linux_server_frame.Http.Servlet.{
  string_eq, assign, erase_first, first_servlet, ServletDispatch, new_dispatch, add_servlet,
  add_glob_servlet, del_servlet, del_glob_servlet, get_servlet, or_else, get_glob_servlet,
  get_matched_servlet,
}

string_eq_refl : (a : List ℕ) → string_eq a a ≡ true
unfolding string_eq
string_eq_refl [] = refl
string_eq_refl (x ∷ a) = ground (arith, string_eq_refl a)

string_eq→eq : (a b : List ℕ) → string_eq a b ≡ true → a ≡ b
unfolding string_eq
string_eq→eq [] [] h = refl
string_eq→eq [] (y ∷ b) h = cc
string_eq→eq (x ∷ a) [] h = cc
string_eq→eq (x ∷ a) (y ∷ b) h = ground (arith, string_eq→eq a b)

string_eq_comm : (a b : List ℕ) → string_eq a b ≡ string_eq b a
unfolding string_eq
string_eq_comm [] [] = refl
string_eq_comm [] (y ∷ b) = refl
string_eq_comm (x ∷ a) [] = refl
string_eq_comm (x ∷ a) (y ∷ b) = ground (arith, string_eq_comm a b)

string_eq_trans : (a b c : List ℕ) → string_eq a b ≡ true → string_eq b c ≡ string_eq a c
string_eq_trans a b c h = ap (λ s. string_eq s c) (sym (string_eq→eq a b h))

-- No pair of the list has this key, or a key twice.
abbrev pub Fresh : {S : Type 0} → List ℕ → List (List ℕ × Option S) → Type 0
Fresh uri [] = Unit {0}
Fresh uri ((k, s) ∷ m) = (string_eq k uri ≡ false) × Fresh uri m

abbrev pub Distinct : {S : Type 0} → List (List ℕ × Option S) → Type 0
Distinct [] = Unit {0}
Distinct ((k, s) ∷ m) = Fresh k m × Distinct m

same_answer : (test : List ℕ → Bool) (k uri : List ℕ) → k ≡ uri → test k ≡ test uri
same_answer test k uri e = ap test e

module _ {S : Type 0} where
  first-assign :
      (m : List (List ℕ × Option S)) (uri j : List ℕ) (slt : Option S)
      → first_servlet (λ k. string_eq k j) (assign m uri slt)
        ≡ (if string_eq uri j then slt else first_servlet (λ k. string_eq k j) m)
  unfolding first_servlet assign
  first-assign [] uri j slt = refl
  first-assign ((k, s) ∷ m) uri j slt = ground (
    arith,
    first-assign m uri j slt,
    string_eq_trans k uri j,
    string_eq_trans k j uri,
    string_eq_comm uri j,
  )

  Fresh-assign :
      (m : List (List ℕ × Option S)) (uri j : List ℕ) (slt : Option S)
      → string_eq uri j ≡ false
      → Fresh j m
      → Fresh j (assign m uri slt)
  unfolding assign
  Fresh-assign [] uri j slt h f = (h, tt)
  Fresh-assign ((k, s) ∷ m) uri j slt h f = ground (arith, Fresh-assign m uri j slt h)

  Distinct-assign :
      (m : List (List ℕ × Option S)) (uri : List ℕ) (slt : Option S)
      → Distinct m
      → Distinct (assign m uri slt)
  unfolding assign
  Distinct-assign [] uri slt d = (tt, tt)
  Distinct-assign ((k, s) ∷ m) uri slt d =
      ground (arith, Distinct-assign m uri slt d.1, Fresh-assign m uri k slt, string_eq_comm uri k)

  first-Fresh :
      (m : List (List ℕ × Option S)) (uri j : List ℕ)
      → string_eq uri j ≡ true
      → Fresh uri m
      → first_servlet (λ k. string_eq k j) m ≡ none
  unfolding first_servlet
  first-Fresh [] uri j h f = refl
  first-Fresh ((k, s) ∷ m) uri j h f = ground (
    arith,
    first-Fresh m uri j h f.1,
    string_eq_comm k j,
    string_eq_comm k uri,
    string_eq_trans uri j k h,
  )

  first-erase :
      (m : List (List ℕ × Option S)) (uri j : List ℕ)
      → Distinct m
      → first_servlet (λ k. string_eq k j) (erase_first m uri)
        ≡ (if string_eq uri j then none else first_servlet (λ k. string_eq k j) m)
  unfolding first_servlet erase_first
  first-erase [] uri j d = ground arith
  first-erase ((k, s) ∷ m) uri j d = ground (
    arith,
    first-erase m uri j d.1,
    first-Fresh m k j,
    string_eq_trans k uri j,
    string_eq_trans k j uri,
    string_eq_comm uri j,
  )

  Fresh-erase :
      (m : List (List ℕ × Option S)) (uri j : List ℕ) → Fresh j m → Fresh j (erase_first m uri)
  unfolding erase_first
  Fresh-erase [] uri j f = tt
  Fresh-erase ((k, s) ∷ m) uri j f = ground (arith, Fresh-erase m uri j f.1)

  Distinct-erase :
      (m : List (List ℕ × Option S)) (uri : List ℕ) → Distinct m → Distinct (erase_first m uri)
  unfolding erase_first
  Distinct-erase [] uri d = tt
  Distinct-erase ((k, s) ∷ m) uri d =
      ground (arith, Distinct-erase m uri d.1, Fresh-erase m uri k d.0)

  -- Appending keeps the first pattern that matches.
  first-assign_skip :
      (m : List (List ℕ × Option S)) (test : List ℕ → Bool) (uri : List ℕ) (slt : Option S)
      → test uri ≡ false
      → first_servlet test (assign m uri slt) ≡ first_servlet test m
  unfolding first_servlet assign
  first-assign_skip [] test uri slt h = ground arith
  first-assign_skip ((k, s) ∷ m) test uri slt h = elim (Bool-cases (string_eq k uri)) [
    | inl e ↦ ground (arith, same_answer test k uri (string_eq→eq k uri e))
    | inr e ↦ rw (e, first-assign_skip m test uri slt h) refl
  ]

  abbrev pub IsDistinct : ServletDispatch S → Type 0
  IsDistinct d = Distinct d.datas × Distinct d.globs

  -- A new dispatch has no path and no pattern twice, and where that holds it still holds after
  -- adding or deleting a servlet, by path or by pattern.
  pub operations-IsDistinct :
      (d : ServletDispatch S) (uri : List ℕ) (slt : Option S) (not_found : S)
      → IsDistinct d
      → IsDistinct (new_dispatch not_found)
        × IsDistinct (add_servlet d uri slt)
        × IsDistinct (add_glob_servlet d uri slt)
        × IsDistinct (del_servlet d uri)
        × IsDistinct (del_glob_servlet d uri)
  unfolding new_dispatch add_servlet add_glob_servlet del_servlet del_glob_servlet
  operations-IsDistinct d uri slt not_found h = (
    (tt, tt),
    (Distinct-assign d.datas uri slt h.0, h.1),
    (h.0, Distinct-assign d.globs uri slt h.1),
    (Distinct-erase d.datas uri h.0, h.1),
    (h.0, Distinct-erase d.globs uri h.1),
  )

  -- The servlet that is added under a path is the one that getServlet finds there, null included,
  -- and the servlets of the other paths stay.
  pub get_servlet-add_servlet :
      (d : ServletDispatch S) (uri j : List ℕ) (slt : Option S)
      → get_servlet (add_servlet d uri slt) j ≡ (if string_eq uri j then slt else get_servlet d j)
  unfolding get_servlet add_servlet
  get_servlet-add_servlet d uri j slt = first-assign d.datas uri j slt

  -- Where no path and no pattern stands twice, a path whose servlet is deleted has none, and the
  -- servlets of the other paths stay.
  pub get_servlet-del_servlet :
      (d : ServletDispatch S) (uri j : List ℕ)
      → IsDistinct d
      → get_servlet (del_servlet d uri) j ≡ (if string_eq uri j then none else get_servlet d j)
  unfolding get_servlet del_servlet
  get_servlet-del_servlet d uri j h = first-erase d.datas uri j h.0

  module _ (fnmatch : List ℕ → List ℕ → Bool) where
    -- Once a servlet is added under a path it answers that path, whatever the patterns and the
    -- default are, and the servlet that answers any other path stays the same.
    pub exact_path_wins :
        (d : ServletDispatch S) (uri j : List ℕ) (slt : S)
        → get_matched_servlet fnmatch (add_servlet d uri (some slt)) j
          ≡ (if string_eq uri j then some slt else get_matched_servlet fnmatch d j)
    unfolding get_matched_servlet add_servlet get_glob_servlet
    exact_path_wins d uri j slt = rw (get_servlet-add_servlet d uri j (some slt)) ground (arith)

    -- Adding a servlet under a pattern that does not match a path leaves the answer for that path
    -- as it was.
    pub other_pattern :
        (d : ServletDispatch S) (uri j : List ℕ) (slt : Option S)
        → fnmatch uri j ≡ false
        → get_matched_servlet fnmatch (add_glob_servlet d uri slt) j
          ≡ get_matched_servlet fnmatch d j
    unfolding get_matched_servlet add_glob_servlet get_glob_servlet get_servlet
    other_pattern d uri j slt h =
        ap (λ s. or_else (get_servlet d j) (or_else s d.default))
          (first-assign_skip d.globs (λ k. fnmatch k j) uri slt h)

    get_matched-default :
        (d : ServletDispatch S) (s : S) (uri : List ℕ)
        → d.default ≡ some s
        → (a b : Option S) → or_else a (or_else b d.default) ≢ none
    get_matched-default d s uri h none none = λ e. cc
    get_matched-default d s uri h none (some b) = λ e. cc
    get_matched-default d s uri h (some a) b = λ e. cc

    -- With a default servlet, getMatchedServlet is not null for any path.
    pub always_answered :
        (d : ServletDispatch S) (s : S) (uri : List ℕ)
        → d.default ≡ some s
        → get_matched_servlet fnmatch d uri ≢ none
    unfolding get_matched_servlet
    always_answered d s uri h =
        get_matched-default d s uri h (get_servlet d uri) (get_glob_servlet fnmatch d uri)
