-- ===== src/Config/Listed.antt =====
-- What ListAllMember lists: the nodes of a document under their names.
use cpp_linux_server_frame.Base.{
  ℕ, ap₂, ◌≡◌, refl, ap, sym, ◌∙◌, inl, inr, false, List, [], ◌∷◌, ◌++◌, append_assoc, append-nil,
  if◌then◌else◌, Bool-cases,
}
use cpp_linux_server_frame.Http.Cstring.{codes}
use cpp_linux_server_frame.Config.{
  Node, scalar, entries, other, Entries, end, entry, is_name_byte, is_name, is_empty, joined,
  list_all_member, list_members,
}

-- The nodes of a document, each with the keys that lead to it, in the document's order.
abbrev pub under : List ℕ → List (List (List ℕ) × Node) → List (List (List ℕ) × Node)
under k [] = []
under k ((p, n) ∷ l) = (k ∷ p, n) ∷ under k l

unfoldable mutual
  pub paths : Node → List (List (List ℕ) × Node)
  paths (scalar s) = ([], scalar s) ∷ []
  paths (other n) = ([], other n) ∷ []
  paths (entries e) = ([], entries e) ∷ entry_paths e

  pub entry_paths : Entries → List (List (List ℕ) × Node)
  entry_paths end = []
  entry_paths (entry k n r) = under k (paths n) ++ entry_paths r

-- The keys joined by points, but for empty ones in front.
abbrev pub dots : List (List ℕ) → List ℕ
dots [] = []
dots (k ∷ ks) = codes "." ++ (k ++ dots ks)

abbrev pub dotted : List (List ℕ) → List ℕ
dotted [] = []
dotted (k ∷ ks) = if is_empty k then dotted ks else k ++ dots ks

abbrev from_prefix : List ℕ → List (List ℕ) → List ℕ
from_prefix [] ks = dotted ks
from_prefix (x ∷ p) ks = (x ∷ p) ++ dots ks

from_prefix-nil : (p : List ℕ) → from_prefix p [] ≡ p
from_prefix-nil [] = refl
from_prefix-nil (x ∷ p) = append-nil (x ∷ p)

from_prefix-cons :
    (p k : List ℕ) (ks : List (List ℕ)) → from_prefix p (k ∷ ks) ≡ from_prefix (joined p k) ks
from_prefix-cons [] [] ks = refl
from_prefix-cons [] (x ∷ k) ks = refl
from_prefix-cons (x ∷ p) k ks = sym (append_assoc (x ∷ p) (b'.' ∷ k) (dots ks))

-- The nodes whose names hold the bytes of names only.
unfoldable pub listed : List ℕ → List (List (List ℕ) × Node) → List (List ℕ × Node)
listed p [] = []
listed p ((ks, n) ∷ l) =
    let rest = listed p l in
    if is_name (from_prefix p ks) then (from_prefix p ks, n) ∷ rest else rest

listed-append :
    (p : List ℕ) (l m : List (List (List ℕ) × Node)) → listed p (l ++ m) ≡ listed p l ++ listed p m
unfolding listed
listed-append p [] m = refl
listed-append p ((ks, n) ∷ l) m = elim (Bool-cases (is_name (from_prefix p ks))) [
  | inl h ↦
      rw h (ap (λ (x : List (List ℕ × Node)). (from_prefix p ks, n) ∷ x) (listed-append p l m))
  | inr h ↦ rw h (listed-append p l m)
]

listed-under :
    (p k : List ℕ) (l : List (List (List ℕ) × Node)) → listed p (under k l) ≡ listed (joined p k) l
unfolding listed
listed-under p k [] = refl
listed-under p k ((ks, n) ∷ l) =
    ap₂ (λ (x : List ℕ) (rest : List (List ℕ × Node)). if is_name x then (x, n) ∷ rest else rest)
      (from_prefix-cons p k ks) (listed-under p k l)

is_name-append : (a b : List ℕ) → is_name a ≡ false → is_name (a ++ b) ≡ false
unfolding is_name
is_name-append [] b h = cc
is_name-append (x ∷ a) b h = elim (Bool-cases (is_name_byte x)) [
  | inl g ↦ rw g (is_name-append a b (rw g at h))
  | inr g ↦ rw g refl
]

from_prefix-bad :
    (p : List ℕ) (ks : List (List ℕ)) → is_name p ≡ false → is_name (from_prefix p ks) ≡ false
unfolding is_name
from_prefix-bad [] ks h = cc
from_prefix-bad (x ∷ p) ks h = is_name-append (x ∷ p) (dots ks) h

listed_bad : (p : List ℕ) (l : List (List (List ℕ) × Node)) → is_name p ≡ false → listed p l ≡ []
unfolding listed
listed_bad p [] h = refl
listed_bad p ((ks, n) ∷ l) h = rw (from_prefix-bad p ks h) (listed_bad p l h)

listed_one :
    (p : List ℕ) (n : Node) → (if is_name p then (p, n) ∷ [] else []) ≡ listed p (([], n) ∷ [])
unfolding listed
listed_one p n = rw (from_prefix-nil p) refl

mutual
  unfolding list_all_member list_members paths entry_paths listed

  pub list_all_member-listed : (p : List ℕ) (n : Node) → list_all_member p n ≡ listed p (paths n)
  list_all_member-listed p (scalar s) = listed_one p (scalar s)
  list_all_member-listed p (other n) = listed_one p (other n)
  list_all_member-listed p (entries e) = elim (Bool-cases (is_name p)) [
    | inl h ↦
        rw (from_prefix-nil p)
          (rw h (ap (λ (x : List (List ℕ × Node)). (p, entries e) ∷ x) (list_members-listed p e)))
    | inr h ↦ rw (from_prefix-nil p) (rw h (sym (listed_bad p (entry_paths e) h)))
  ]

  list_members-listed : (p : List ℕ) (e : Entries) → list_members p e ≡ listed p (entry_paths e)
  list_members-listed p end = refl
  list_members-listed p (entry k n r) =
      ap₂ ◌++◌ (list_all_member-listed (joined p k) n ∙ sym (listed-under p k (paths n)))
        (list_members-listed p r)
      ∙ sym (listed-append p (under k (paths n)) (entry_paths r))
