-- ===== src/Config/Laws.antt =====
-- What LoadFromYaml makes of every variable.
use cpp_linux_server_frame.Base.{
  ℕ, ap₂, ◌≡◌, refl, ap, sym, subst, ◌∙◌, inl, inr, Bool, true, false, List, [], ◌∷◌, ◌++◌,
  append_assoc, append-nil, Option, none, some, if◌then◌else◌, Bool-cases, branch,
}
use cpp_linux_server_frame.Log.Loggers.{same_text}
use cpp_linux_server_frame.Log.Listener.Laws.{same_text→eq}
use cpp_linux_server_frame.Config.{
  Node, scalar, entries, other, is_name, is_empty, list_all_member, ConfigVar, notified,
  ConfigVarMap, set_value, from_string, text_of, load_from_yaml,
}
use cpp_linux_server_frame.Config.Listed.{paths, list_all_member-listed, listed, dotted}
use cpp_linux_server_frame.Config.Members.{
  AllNames, texts, list_all_member-AllNames, loads, load_members_lem, from_strings,
}

module _ {V : Type 0} (same : V → V → Bool) (from_text : List ℕ → List ℕ → Option V)
    (print : Node → List ℕ) where
  -- The text of a node.
  abbrev pub told_text : Node → List ℕ
  told_text (scalar s) = s
  told_text (entries e) = print (entries e)
  told_text (other n) = print (other n)

  told_text_lem : (n : Node) → text_of same from_text print n ≡ told_text n
  unfolding text_of
  told_text_lem (scalar s) = refl
  told_text_lem (entries e) = refl
  told_text_lem (other n) = refl

  -- The texts of the nodes whose keys, joined by points, are `n`.
  abbrev pub texts_at : List ℕ → List (List (List ℕ) × Node) → List (List ℕ)
  texts_at n [] = []
  texts_at n ((ks, node) ∷ l) =
      let rest = texts_at n l in if same_text (dotted ks) n then told_text node ∷ rest else rest

  -- Of a document, where `n` is not empty and holds the bytes of names only.
  abbrev pub texts_of : List ℕ → Node → List (List ℕ)
  texts_of [] root = []
  texts_of (x ∷ n) root = if is_name (x ∷ n) then texts_at (x ∷ n) (paths root) else []

  module _ (x : ℕ) (n : List ℕ) (h : is_name (x ∷ n) ≡ true) (node : Node)
      (rest : List (List ℕ × Node)) (ts : List (List ℕ))
      (e : texts same from_text print (x ∷ n) rest ≡ ts) where
    texts-named :
        text_of same from_text print node ∷ texts same from_text print (x ∷ n) rest
        ≡ told_text node ∷ ts
    texts-named = ap₂ (λ (a : List ℕ) (b : List (List ℕ)). a ∷ b) (told_text_lem node) e

    texts-unnamed :
        (q : List ℕ)
        → same_text q (x ∷ n) ≡ false
        → texts same from_text print (x ∷ n) ((q, node) ∷ rest) ≡ ts
    texts-unnamed [] g = e
    texts-unnamed (y ∷ q) g = rw g e

    texts-one :
        (q : List ℕ)
        → texts same from_text print (x ∷ n) (if is_name q then (q, node) ∷ rest else rest)
          ≡ (if same_text q (x ∷ n) then told_text node ∷ ts else ts)
    texts-one q = elim (Bool-cases (same_text q (x ∷ n))) [
      | inl g ↦
          subst
            (λ (k : List ℕ).
              same_text k (x ∷ n) ≡ true
              → texts same from_text print (x ∷ n) (if is_name k then (k, node) ∷ rest else rest)
                ≡ (if same_text k (x ∷ n) then told_text node ∷ ts else ts))
            (sym (same_text→eq q (x ∷ n) g)) (λ k. rw h (rw k texts-named)) g
      | inr g ↦ rw g (
          branch (λ (l : List (List ℕ × Node)). texts same from_text print (x ∷ n) l ≡ ts)
            (is_name q) _ _ (λ _. texts-unnamed q g) (λ _. e))
    ]

  texts-listed :
      (x : ℕ) (n : List ℕ) (l : List (List (List ℕ) × Node))
      → is_name (x ∷ n) ≡ true
      → texts same from_text print (x ∷ n) (listed [] l) ≡ texts_at (x ∷ n) l
  unfolding listed
  texts-listed x n [] h = refl
  texts-listed x n ((ks, node) ∷ l) h =
      texts-one x n h node (listed [] l) (texts_at (x ∷ n) l) (texts-listed x n l h) (dotted ks)

  texts-nil : (l : List (List ℕ × Node)) → texts same from_text print [] l ≡ []
  unfolding same_text
  texts-nil [] = refl
  texts-nil (([], node) ∷ l) = texts-nil l
  texts-nil ((x ∷ k, node) ∷ l) = texts-nil l

  texts_bad :
      (n : List ℕ) (l : List (List ℕ × Node))
      → is_name n ≡ false
      → AllNames l
      → texts same from_text print n l ≡ []
  texts_bad n [] h a = refl
  texts_bad n ((k, node) ∷ l) h a = elim (Bool-cases (is_empty k)) [
    | inl e ↦ rw e (texts_bad n l h a.1)
    | inr e ↦ elim (Bool-cases (same_text k n)) [
      | inl g ↦ absurd (both (ap is_name (same_text→eq k n g)) a.0 h)
      | inr g ↦ rw (e, g) (texts_bad n l h a.1)
    ]
  ]
    where
      both : {b c : Bool} → b ≡ c → b ≡ true → c ≡ false → ⊥
      both e f g = cc

  texts_lem :
      (n : List ℕ) (root : Node)
      → texts same from_text print n (list_all_member [] root) ≡ texts_of n root
  texts_lem [] root = texts-nil (list_all_member [] root)
  texts_lem (x ∷ n) root = elim (Bool-cases (is_name (x ∷ n))) [
    | inl h ↦ rw h (
        ap (texts same from_text print (x ∷ n)) (list_all_member-listed [] root)
        ∙ texts-listed x n (paths root) h)
    | inr h ↦
        rw h (texts_bad (x ∷ n) (list_all_member [] root) h (list_all_member-AllNames [] root))
  ]

  -- The value after a text and what each listener is told: nothing where the text does not convert
  -- or its value is the same, and else the value before and the new one.
  abbrev pub value_after : V → Option V → V
  value_after x none = x
  value_after x (some y) = if same y x then x else y

  abbrev pub told_all : List ℕ → V → V → List (ℕ × V × V)
  told_all [] x y = []
  told_all (k ∷ cbs) x y = (k, x, y) ∷ told_all cbs x y

  abbrev pub told_after : List ℕ → V → Option V → List (ℕ × V × V)
  told_after cbs x none = []
  told_after cbs x (some y) = if same y x then [] else told_all cbs x y

  -- Of all texts in order.
  abbrev pub last_value : List ℕ → V → List (List ℕ) → V
  last_value n x [] = x
  last_value n x (t ∷ ts) = last_value n (value_after x (from_text n t)) ts

  abbrev pub all_told : List ℕ → List ℕ → V → List (List ℕ) → List (ℕ × V × V)
  all_told n cbs x [] = []
  all_told n cbs x (t ∷ ts) =
      told_after cbs x (from_text n t) ++ all_told n cbs (value_after x (from_text n t)) ts

  abbrev pub after_texts : List ℕ → ConfigVar V → List (List ℕ) → ConfigVar V
  after_texts n v ts = record v {
    val = last_value n v.val ts;
    calls = v.calls ++ all_told n v.cbs v.val ts;
  }

  told_all_lem : (cbs : List ℕ) (x y : V) → notified cbs x y ≡ told_all cbs x y
  told_all_lem [] x y = refl
  told_all_lem (k ∷ cbs) x y = ap (λ (l : List (ℕ × V × V)). (k, x, y) ∷ l) (told_all_lem cbs x y)

  abbrev after_one : ConfigVar V → Option V → ConfigVar V
  after_one v o = record v {
    val = value_after v.val o;
    calls = v.calls ++ told_after v.cbs v.val o;
  }

  same_var : (v : ConfigVar V) → v ≡ record v { val = v.val; calls = v.calls ++ [] }
  same_var v =
      ap (λ (l : List (ℕ × V × V)). record v { val = v.val; calls = l }) (sym (append-nil v.calls))

  set_value-after_one :
      (v : ConfigVar V) (y : V) → set_value same from_text print v y ≡ after_one v (some y)
  unfolding set_value
  set_value-after_one v y = elim (Bool-cases (same y v.val)) [
    | inl g ↦ rw g (same_var v)
    | inr g ↦ rw g (
        ap (λ (l : List (ℕ × V × V)). record v { val = y; calls = v.calls ++ l })
          (told_all_lem v.cbs v.val y))
  ]

  by_conversion :
      (v : ConfigVar V) (o : Option V)
      → (elim o as (λ _. ConfigVar V) [ none ↦ v | some y ↦ set_value same from_text print v y ])
        ≡ after_one v o
  by_conversion v none = same_var v
  by_conversion v (some y) = set_value-after_one v y

  from_string-after_one :
      (n t : List ℕ) (v : ConfigVar V)
      → from_string same from_text print n v t ≡ after_one v (from_text n t)
  unfolding from_string
  from_string-after_one n t v = by_conversion v (from_text n t)

  from_strings-after_texts :
      (n : List ℕ) (ts : List (List ℕ)) (v : ConfigVar V)
      → from_strings same from_text print n v ts ≡ after_texts n v ts
  from_strings-after_texts n [] v = same_var v
  from_strings-after_texts n (t ∷ ts) v =
      ap (λ (w : ConfigVar V). from_strings same from_text print n w ts)
        (from_string-after_one n t v)
      ∙ from_strings-after_texts n ts (after_one v (from_text n t))
      ∙ ap (λ (l : List (ℕ × V × V)). record v { val = last_value n v.val (t ∷ ts); calls = l })
          (append_assoc v.calls (told_after v.cbs v.val (from_text n t))
            (all_told n v.cbs (value_after v.val (from_text n t)) ts))

  -- What becomes of the variable of a name.
  abbrev pub loaded : List ℕ → List (List ℕ) → Option (ConfigVar V) → Option (ConfigVar V)
  loaded n ts none = none
  loaded n ts (some v) = some (after_texts n v ts)

  loads-loaded :
      (n : List ℕ) (ts : List (List ℕ)) (o : Option (ConfigVar V))
      → loads same from_text print n ts o ≡ loaded n ts o
  loads-loaded n ts none = refl
  loads-loaded n ts (some v) = ap (λ (w : ConfigVar V). some w) (from_strings-after_texts n ts v)

  -- LoadFromYaml adds no variable. It gives the variable of a name the texts of the nodes whose keys,
  -- joined by points (empty ones in front left out), are the name, in the document's order, where the
  -- name is not empty and holds only lower-case letters, digits, points and underscores: a text that
  -- does not convert or whose value is the same changes nothing, any other text changes the value and
  -- every listener is told the value before and the new one, in order.
  pub load_from_yaml-loaded :
      (root : Node) (m : ConfigVarMap V) (n : List ℕ)
      → load_from_yaml same from_text print root m n ≡ loaded n (texts_of n root) (m n)
  unfolding load_from_yaml
  load_from_yaml-loaded root m n =
      load_members_lem same from_text print (list_all_member [] root) m n
        (list_all_member-AllNames [] root)
      ∙ ap (λ (ts : List (List ℕ)). loads same from_text print n ts (m n)) (texts_lem n root)
      ∙ loads-loaded n (texts_of n root) (m n)
