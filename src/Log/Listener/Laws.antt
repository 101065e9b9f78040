-- ===== src/Log/Listener/Laws.antt =====
-- What the listener leaves of every logger.
use cpp_linux_server_frame.Base.{
  ℕ, ◌≡◌, refl, ap, sym, subst, ◌∙◌, inl, inr, true, false, List, [], ◌∷◌, Option, none, some,
  if◌then◌else◌, Bool-cases, Option-cases, arith,
}
use cpp_linux_server_frame.Log.Loggers.{same_text, Logger, Loggers, found_or_new, put, get_logger}
use cpp_linux_server_frame.Log.Listener.{
  LogDefine, find_define, configure, unchanged, configure_all, silenced, silence_all,
}

pub same_text→eq : (a b : List ℕ) → same_text a b ≡ true → a ≡ b
unfolding same_text
same_text→eq [] [] h = refl
same_text→eq [] (y ∷ b) h = cc
same_text→eq (x ∷ a) [] h = cc
same_text→eq (x ∷ a) (y ∷ b) h = ground (arith, same_text→eq a b)

pub same_text_refl : (a : List ℕ) → same_text a a ≡ true
unfolding same_text
same_text_refl [] = refl
same_text_refl (x ∷ a) = ground (arith, same_text_refl a)

-- A set holds one definition for each name.
abbrev pub IsSetOf : List LogDefine → Type 0
IsSetOf [] = Unit {0}
IsSetOf (d ∷ l) = (find_define d.name l ≡ none) × IsSetOf l

-- The definition of a name, if it is new or has changed.
abbrev pub changed : List LogDefine → Option LogDefine → Option LogDefine
changed old none = none
changed old (some d) = if unchanged (find_define d.name old) d then none else some d

-- The logger `x` of the name `n` once the new definitions have been applied.
abbrev pub configured : List ℕ → Option LogDefine → Option Logger → Option Logger
configured n none x = x
configured n (some d) x = configure d (found_or_new n x)

-- The logger once the old ones that are gone have been silenced.
abbrev pub gone : List ℕ → Option LogDefine → Option LogDefine → Option Logger → Option Logger
gone n (some d) o x = x
gone n none none x = x
gone n none (some o) x = some (silenced (found_or_new n x))

put_self : (n : List ℕ) (l : Logger) (m : Loggers) → put n l m n ≡ some l
put_self n l m = rw (same_text_refl n) refl

put_other : (n k : List ℕ) (l : Logger) (m : Loggers) → same_text n k ≡ false → put n l m k ≡ m k
put_other n k l m h = rw h refl

find_self : (d : LogDefine) (ds : List LogDefine) → find_define d.name (d ∷ ds) ≡ some d
unfolding find_define
find_self d ds = rw (same_text_refl d.name) refl

find_other :
    (d : LogDefine) (ds : List LogDefine) (n : List ℕ)
    → same_text d.name n ≡ false
    → find_define n (d ∷ ds) ≡ find_define n ds
unfolding find_define
find_other d ds n h = rw h refl

same_map : {m m' : Loggers} → some m ≡ some m' → m ≡ m'
same_map h = cc

module _ (old : List LogDefine) where
  abbrev pub Applied : List LogDefine → Loggers → Loggers → List ℕ → Type 0
  Applied ds m m' n = m' n ≡ configured n (changed old (find_define n ds)) (m n)

  -- One round over a definition `d`, with the map `m1` after it.
  Applied-cons :
      (d : LogDefine) (ds : List LogDefine) (m m1 m' : Loggers)
      → find_define d.name ds ≡ none
      → m1 d.name ≡ configured d.name (changed old (some d)) (m d.name)
      → ((k : List ℕ) → same_text d.name k ≡ false → m1 k ≡ m k)
      → ((n : List ℕ) → Applied ds m1 m' n)
      → (n : List ℕ) → Applied (d ∷ ds) m m' n
  Applied-cons d ds m m1 m' alone here there ih n = elim (Bool-cases (same_text d.name n)) [
    | inl e ↦
        subst (λ (k : List ℕ). m' k ≡ configured k (changed old (find_define k (d ∷ ds))) (m k))
          (same_text→eq d.name n e)
          (ih d.name
            ∙ ap (λ (o : Option LogDefine). configured d.name (changed old o) (m1 d.name)) alone
            ∙ here
            ∙ ap (λ (o : Option LogDefine). configured d.name (changed old o) (m d.name))
                (sym (find_self d ds)))
    | inr o ↦
        ih n
        ∙ ap (λ (x : Option Logger). configured n (changed old (find_define n ds)) x) (there n o)
        ∙ ap (λ (x : Option LogDefine). configured n (changed old x) (m n))
            (sym (find_other d ds n o))
  ]

  -- The logger that a definition finds, and the map once it is configured as `l`.
  abbrev found : LogDefine → Loggers → Logger
  found d m = found_or_new d.name (m d.name)

  abbrev after : LogDefine → Loggers → Logger → Loggers
  after d m l = put d.name l (put d.name (found d m) m)

  round_skips :
      (d : LogDefine) (ds : List LogDefine) (m : Loggers)
      → unchanged (find_define d.name old) d ≡ true
      → configure_all old (d ∷ ds) m ≡ configure_all old ds m
  unfolding configure_all
  round_skips d ds m u = rw (u, configure_all) refl

  round_sets :
      (d : LogDefine) (ds : List LogDefine) (m : Loggers) (l : Logger)
      → unchanged (find_define d.name old) d ≡ false
      → configure d (found d m) ≡ some l
      → configure_all old (d ∷ ds) m ≡ configure_all old ds (after d m l)
  unfolding configure_all get_logger
  round_sets d ds m l u e = rw (u, configure_all) (rw e refl)

  round_faults :
      (d : LogDefine) (ds : List LogDefine) (m : Loggers)
      → unchanged (find_define d.name old) d ≡ false
      → configure d (found d m) ≡ none
      → configure_all old (d ∷ ds) m ≡ none
  unfolding configure_all get_logger
  round_faults d ds m u e = rw (u, configure_all) (rw e refl)

  after_other :
      (d : LogDefine) (m : Loggers) (l : Logger) (k : List ℕ)
      → same_text d.name k ≡ false
      → after d m l k ≡ m k
  after_other d m l k o =
      put_other d.name k l (put d.name (found d m) m) o ∙ put_other d.name k (found d m) m o

  pub configure_all-Applied :
      (ds : List LogDefine) (m m' : Loggers)
      → IsSetOf ds
      → configure_all old ds m ≡ some m'
      → (n : List ℕ) → Applied ds m m' n
  unfolding configure_all find_define
  configure_all-Applied [] m m' s h n = ap (λ (f : Loggers). f n) (sym (same_map h))
  configure_all-Applied (d ∷ ds) m m' s h n =
      elim (Bool-cases (unchanged (find_define d.name old) d)) [
        | inl u ↦
            Applied-cons d ds m m m' s.0 (rw u refl) (λ k o. refl)
              (configure_all-Applied ds m m' s.1 (sym (round_skips d ds m u) ∙ h)) n
        | inr u ↦ elim (Option-cases (configure d (found d m))) [
          | inl e ↦ absurd (no_map (sym (round_faults d ds m u e) ∙ h))
          | inr (l, e) ↦
              Applied-cons d ds m (after d m l) m' s.0
                (put_self d.name l (put d.name (found d m) m) ∙ sym (rw u e)) (after_other d m l)
                (configure_all-Applied ds (after d m l) m' s.1 (sym (round_sets d ds m l u e) ∙ h))
                n
        ]
      ]
    where
      no_map : none ≡ some m' → ⊥
      no_map x = cc

-- What the loop over the old definitions does.
module _ (new : List LogDefine) where
  abbrev pub Silenced : List LogDefine → Loggers → Loggers → List ℕ → Type 0
  Silenced os m m' n = m' n ≡ gone n (find_define n new) (find_define n os) (m n)

  Silenced-cons :
      (o : LogDefine) (os : List LogDefine) (m m1 m' : Loggers)
      → find_define o.name os ≡ none
      → m1 o.name ≡ gone o.name (find_define o.name new) (some o) (m o.name)
      → ((k : List ℕ) → same_text o.name k ≡ false → m1 k ≡ m k)
      → ((n : List ℕ) → Silenced os m1 m' n)
      → (n : List ℕ) → Silenced (o ∷ os) m m' n
  Silenced-cons o os m m1 m' alone here there ih n = elim (Bool-cases (same_text o.name n)) [
    | inl e ↦
        subst (λ (k : List ℕ). m' k ≡ gone k (find_define k new) (find_define k (o ∷ os)) (m k))
          (same_text→eq o.name n e)
          (ih o.name
            ∙ ap (λ (x : Option LogDefine). gone o.name (find_define o.name new) x (m1 o.name))
                alone
            ∙ kept o.name (find_define o.name new) (m1 o.name)
            ∙ here
            ∙ ap (λ (x : Option LogDefine). gone o.name (find_define o.name new) x (m o.name))
                (sym (find_self o os)))
    | inr d ↦
        ih n
        ∙ ap (λ (x : Option Logger). gone n (find_define n new) (find_define n os) x) (there n d)
        ∙ ap (λ (x : Option LogDefine). gone n (find_define n new) x (m n))
            (sym (find_other o os n d))
  ]
    where
      kept : (n : List ℕ) (d : Option LogDefine) (x : Option Logger) → gone n d none x ≡ x
      kept n none x = refl
      kept n (some d) x = refl

  abbrev quiet : LogDefine → Loggers → Loggers
  quiet o m =
      put o.name (silenced (found_or_new o.name (m o.name)))
        (put o.name (found_or_new o.name (m o.name)) m)

  quiet_other :
      (o : LogDefine) (m : Loggers) (k : List ℕ) → same_text o.name k ≡ false → quiet o m k ≡ m k
  quiet_other o m k h =
      put_other o.name k _ (put o.name (found_or_new o.name (m o.name)) m) h
      ∙ put_other o.name k (found_or_new o.name (m o.name)) m h

  pub silence_all-Silenced :
      (os : List LogDefine) (m : Loggers)
      → IsSetOf os
      → (n : List ℕ) → Silenced os m (silence_all new os m) n
  unfolding silence_all get_logger find_define
  silence_all-Silenced [] m s n = elim (Option-cases (find_define n new)) [
    | inl e ↦ rw e refl
    | inr (d, e) ↦ rw e refl
  ]
  silence_all-Silenced (o ∷ os) m s n = elim (Option-cases (find_define o.name new)) [
    | inl e ↦
        rw (e, silence_all)
          (Silenced-cons o os m (quiet o m) _ s.0
            (put_self o.name _ (put o.name (found_or_new o.name (m o.name)) m) ∙ sym (rw e refl))
            (quiet_other o m) (silence_all-Silenced os (quiet o m) s.1) n)
    | inr (d, e) ↦
        rw (e, silence_all)
          (Silenced-cons o os m m _ s.0 (sym (rw e refl)) (λ k h. refl)
            (silence_all-Silenced os m s.1) n)
  ]
