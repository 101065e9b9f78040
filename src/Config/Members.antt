-- ===== src/Config/Members.antt =====
-- The loop of LoadFromYaml, name by name.
use cpp_linux_server_frame.Base.{
  ℕ, ◌≡◌, refl, ap, sym, subst, ◌∙◌, inl, inr, Bool, true, false, List, [], ◌∷◌, ◌++◌, Option, none,
  some, if◌then◌else◌, Bool-cases, branch, arith,
}
use cpp_linux_server_frame.Http.Cstring.{to_lower}
use cpp_linux_server_frame.Log.Loggers.{same_text}
use cpp_linux_server_frame.Log.Listener.Laws.{same_text→eq}
use cpp_linux_server_frame.Config.{
  Node, scalar, entries, other, Entries, end, entry, is_name_byte, is_name, is_empty, joined,
  list_all_member, list_members, ConfigVar, ConfigVarMap, lower, from_string, text_of, assign,
  load_member, load_members,
}

abbrev pub AllNames : List (List ℕ × Node) → Type 0
AllNames [] = Unit {0}
AllNames ((k, n) ∷ l) = (is_name k ≡ true) × AllNames l

AllNames-append : (l m : List (List ℕ × Node)) → AllNames l → AllNames m → AllNames (l ++ m)
AllNames-append [] m h k = k
AllNames-append ((p, n) ∷ l) m h k = (h.0, AllNames-append l m h.1 k)

mutual
  unfolding list_all_member list_members

  pub list_all_member-AllNames : (p : List ℕ) (n : Node) → AllNames (list_all_member p n)
  list_all_member-AllNames p (scalar s) =
      branch AllNames (is_name p) ((p, scalar s) ∷ []) [] (λ h. (h, tt)) (λ _. tt)
  list_all_member-AllNames p (other n) =
      branch AllNames (is_name p) ((p, other n) ∷ []) [] (λ h. (h, tt)) (λ _. tt)
  list_all_member-AllNames p (entries e) =
      branch AllNames (is_name p) ((p, entries e) ∷ list_members p e) []
        (λ h. (h, list_members-AllNames p e)) (λ _. tt)

  list_members-AllNames : (p : List ℕ) (e : Entries) → AllNames (list_members p e)
  list_members-AllNames p end = tt
  list_members-AllNames p (entry k n r) =
      AllNames-append (list_all_member (joined p k) n) (list_members p r)
        (list_all_member-AllNames (joined p k) n) (list_members-AllNames p r)

lower_byte : (c : ℕ) → is_name_byte c ≡ true → to_lower c ≡ c
lower_byte c h = ground arith

lower_name : (s : List ℕ) → is_name s ≡ true → lower s ≡ s
unfolding is_name
lower_name [] h = refl
lower_name (c ∷ s) h = ground (arith, lower_byte c, lower_name s)

module _ {V : Type 0} (same : V → V → Bool) (from_text : List ℕ → List ℕ → Option V)
    (print : Node → List ℕ) where
  -- The texts that nodes have for a name, in order.
  abbrev pub texts : List ℕ → List (List ℕ × Node) → List (List ℕ)
  texts n [] = []
  texts n ((k, node) ∷ l) =
      let rest = texts n l in
      if is_empty k
      then rest
      else if same_text k n
      then text_of same from_text print node ∷ rest
      else rest

  abbrev pub from_strings : List ℕ → ConfigVar V → List (List ℕ) → ConfigVar V
  from_strings n v [] = v
  from_strings n v (t ∷ ts) = from_strings n (from_string same from_text print n v t) ts

  abbrev pub loads : List ℕ → List (List ℕ) → Option (ConfigVar V) → Option (ConfigVar V)
  loads n ts none = none
  loads n ts (some v) = some (from_strings n v ts)

  loads-cons :
      (n t : List ℕ) (ts : List (List ℕ)) (o : Option (ConfigVar V))
      → loads n ts (loads n (t ∷ []) o) ≡ loads n (t ∷ ts) o
  loads-cons n t ts none = refl
  loads-cons n t ts (some v) = refl

  loads-none : (n : List ℕ) (o : Option (ConfigVar V)) → loads n [] o ≡ o
  loads-none n none = refl
  loads-none n (some v) = refl

  assign_self :
      (k : List ℕ) (node : Node) (m : ConfigVarMap V) (o : Option (ConfigVar V))
      → m k ≡ o
      → same_text k k ≡ true
      → assign same from_text print k node m o k
        ≡ loads k (text_of same from_text print node ∷ []) o
  assign_self k node m none h e = h
  assign_self k node m (some v) h e = rw e refl

  assign_other :
      (k n : List ℕ) (node : Node) (m : ConfigVarMap V) (o : Option (ConfigVar V))
      → same_text k n ≡ false
      → assign same from_text print k node m o n ≡ m n
  assign_other k n node m none e = refl
  assign_other k n node m (some v) e = rw e refl

  assign_lem :
      (k n : List ℕ) (node : Node) (m : ConfigVarMap V)
      → assign same from_text print k node m (m k) n
        ≡ loads n (if same_text k n then text_of same from_text print node ∷ [] else []) (m n)
  assign_lem k n node m = elim (Bool-cases (same_text k n)) [
    | inl e ↦
        let p = same_text→eq k n e in
        rw e (
          subst
            (λ (x : List ℕ).
              same_text k x ≡ true
              → assign same from_text print k node m (m k) x
                ≡ loads x (text_of same from_text print node ∷ []) (m x))
            p (assign_self k node m (m k) refl) e)
    | inr e ↦ rw e (assign_other k n node m (m k) e ∙ sym (loads-none n (m n)))
  ]

  load_member_lem :
      (k n : List ℕ) (node : Node) (m : ConfigVarMap V)
      → is_name k ≡ true
      → load_member same from_text print k node m n ≡ loads n (texts n ((k, node) ∷ [])) (m n)
  unfolding load_member
  load_member_lem k n node m h = elim (Bool-cases (is_empty k)) [
    | inl e ↦ rw e (sym (loads-none n (m n)))
    | inr e ↦ rw e (rw (lower_name k h) (assign_lem k n node m))
  ]

  texts-cons :
      (n k : List ℕ) (node : Node) (l : List (List ℕ × Node)) (o : Option (ConfigVar V))
      → loads n (texts n l) (loads n (texts n ((k, node) ∷ [])) o)
        ≡ loads n (texts n ((k, node) ∷ l)) o
  texts-cons n k node l o = elim (Bool-cases (is_empty k)) [
    | inl e ↦ rw e (ap (loads n (texts n l)) (loads-none n o))
    | inr e ↦ elim (Bool-cases (same_text k n)) [
      | inl g ↦ rw (e, g) (loads-cons n (text_of same from_text print node) (texts n l) o)
      | inr g ↦ rw (e, g) (ap (loads n (texts n l)) (loads-none n o))
    ]
  ]

  pub load_members_lem :
      (l : List (List ℕ × Node)) (m : ConfigVarMap V) (n : List ℕ)
      → AllNames l
      → load_members same from_text print l m n ≡ loads n (texts n l) (m n)
  unfolding load_members
  load_members_lem [] m n h = sym (loads-none n (m n))
  load_members_lem ((k, node) ∷ l) m n h =
      load_members_lem l (load_member same from_text print k node m) n h.1
      ∙ ap (loads n (texts n l)) (load_member_lem k n node m h.0)
      ∙ texts-cons n k node l (m n)
