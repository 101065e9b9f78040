-- ===== src/Log/Pattern/Ended.antt =====
-- The loops of LogFormatter::init end, and "%%" is not read as a percent sign.
use cpp_linux_server_frame.Base.{
  ℕ, zero, suc, ◌≤◌, ◌≡◌, refl, ap, sym, ◌∙◌, inl, inr, true, false, ◌||◌, List, [], ◌∷◌, ◌++◌,
  append_assoc, append-nil, Option, none, some, ◌==◌, length, Bool-cases, branch, arith,
}
use cpp_linux_server_frame.Log.Pattern.{
  is_alpha, Part, typed, Directive, read_fmt, read_str, flush, starts_with_percent, Parts, before,
  after_directive, split, make_items, LogFormatter, formatter_of, new_formatter,
}
use cpp_linux_server_frame.Log.Pattern.Written.{Without, Stops, read_str-Stops, split_directive}

abbrev IsShort : List ℕ → Directive → Type 0
IsShort r d = length d.left ≤ length r

read_fmt-IsShort : (str fmt r : List ℕ) → IsShort r (read_fmt str fmt r)
unfolding read_fmt
read_fmt-IsShort str fmt [] = omega arith
read_fmt-IsShort str fmt (x ∷ r) =
    branch (IsShort (x ∷ r)) (x == b'}') _ _ (λ h. omega arith)
      (λ h. omega (arith, read_fmt-IsShort str (fmt ++ x ∷ []) r))

read_str-IsShort : (str r : List ℕ) → IsShort r (read_str str r)
unfolding read_str
read_str-IsShort str [] = omega arith
read_str-IsShort str (x ∷ r) =
    branch (IsShort (x ∷ r)) (x == b'{') _ _ (λ h. omega (arith, read_fmt-IsShort str [] r))
      (λ h.
        branch (IsShort (x ∷ r)) (is_alpha x || x == b'}') _ _
          (λ a. omega (arith, read_str-IsShort (str ++ x ∷ []) r)) (λ a. omega arith))

abbrev Some : Option Parts → Type 0
Some o = (p : Parts) × (o ≡ some p)

before-Some : (f : List Part → List Part) (o : Option Parts) → Some o → Some (before f o)
before-Some f none (p, e) = cc
before-Some f (some (l, b)) s = ((f l, b), refl)

after_directive-Some :
    (rest : List ℕ → Option Parts) (nstr : List ℕ) (d : Directive)
    → Some (rest d.left)
    → Some (after_directive rest nstr d)
unfolding after_directive
after_directive-Some rest nstr d s =
    branch Some d.closed _ _ (λ h. before-Some _ (rest d.left) s) (λ h. (_, refl))

split-Some : (f : ℕ) (nstr r : List ℕ) → length r ≤ f → Some (split f nstr r)
unfolding split
split-Some zero nstr [] h = (_, refl)
split-Some (suc f) nstr [] h = (_, refl)
split-Some zero nstr (x ∷ r) h = absurd (omega arith)
split-Some (suc f) nstr (x ∷ r) h = elim (Bool-cases (x == b'%')) [
  | inr n ↦ rw (n, split) (split-Some f (nstr ++ x ∷ []) r (omega arith))
  | inl y ↦ elim (Bool-cases (starts_with_percent r)) [
    | inl p ↦ rw (y, split) (rw p (split-Some f (nstr ++ b'%' ∷ []) r (omega arith)))
    | inr n ↦
        rw (y, split)
          (rw n (
            after_directive-Some (split f []) nstr (read_str [] r)
              (split-Some f [] (read_str [] r).left (omega (arith, read_str-IsShort [] r)))))
  ]
]

-- The constructor of LogFormatter returns for every pattern.
pub new_formatter-Some :
    (p : List ℕ) → (f : LogFormatter) × (new_formatter p ≡ some f) × (f.pattern_text ≡ p)
unfolding new_formatter
new_formatter-Some p =
    let (l, e) = split-Some (length p) [] p (omega arith) in (_, ap (formatter_of p) e, refl)

split_text :
    (f : ℕ) (nstr s : List ℕ)
    → Without b'%' s
    → length s ≤ f
    → split f nstr s ≡ some (flush (nstr ++ s) [], false)
unfolding split
split_text zero nstr [] w h = ap (λ (t : List ℕ). some (flush t [], false)) (sym (append-nil nstr))
split_text (suc f) nstr [] w h =
    ap (λ (t : List ℕ). some (flush t [], false)) (sym (append-nil nstr))
split_text zero nstr (x ∷ s) w h = absurd (omega arith)
split_text (suc f) nstr (x ∷ s) w h =
    rw (w.0, split)
      (split_text f (nstr ++ x ∷ []) s w.1 (omega arith)
        ∙ ap (λ (t : List ℕ). some (flush t [], false)) (append_assoc nstr (x ∷ []) s))

no_percent : (s : List ℕ) → Without b'%' s → starts_with_percent s ≡ false
no_percent [] w = refl
no_percent (x ∷ s) w = w.0

two_percents :
    (s : List ℕ)
    → Without b'%' s
    → Stops s
    → split (length (b'%' ∷ b'%' ∷ s)) [] (b'%' ∷ b'%' ∷ s)
      ≡ some (flush (b'%' ∷ []) (typed [] [] ∷ flush s []), false)
unfolding split
two_percents s w h =
    split_directive (length s) (b'%' ∷ []) s [] [] s (flush s []) false (no_percent s w)
      (read_str-Stops [] s h) (split_text (length s) [] s w (omega arith))

-- A pattern that begins with "%%", followed by a text without '%' that does not begin with a
-- letter or a brace, is an error, where the comment of init promises a percent sign.
pub percent_refused :
    (s : List ℕ)
    → Without b'%' s
    → Stops s
    → (f : LogFormatter) × (new_formatter (b'%' ∷ b'%' ∷ s) ≡ some f) × (f.error ≡ true)
unfolding new_formatter make_items
percent_refused s w h = (_, ap (formatter_of (b'%' ∷ b'%' ∷ s)) (two_percents s w h), refl)
