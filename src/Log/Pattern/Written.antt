-- ===== src/Log/Pattern/Written.antt =====
-- Patterns put together from texts and directives, and what a formatter makes of them.
use cpp_linux_server_frame.Base.{
  ℕ, zero, suc, ◌≤◌, ◌≡◌, refl, ap, sym, subst, ◌∙◌, Bool, true, false, ◌||◌, List, [], ◌∷◌, ◌++◌,
  append_assoc, append-nil, some, ◌==◌, length, length-append, arith,
}
use cpp_linux_server_frame.Log.Pattern.{
  is_alpha, Part, typed, read_fmt, read_str, flush, starts_with_percent, after_directive, split,
  FormatItem, item_of_letter, make_items, LogFormatter, formatter_of, new_formatter, LogEvent,
  format_item, format,
}

-- A text, a directive without braces, and one with them, each with the item that it stands for.
pub data Piece : Type 0 where
  words : List ℕ → Piece
  short : ℕ → FormatItem → Piece
  long : ℕ → List ℕ → FormatItem → Piece

abbrev pub print : List Piece → List ℕ
print [] = []
print (words s ∷ ps) = s ++ print ps
print (short x f ∷ ps) = b'%' ∷ x ∷ print ps
print (long x fmt f ∷ ps) = b'%' ∷ x ∷ b'{' ∷ (fmt ++ b'}' ∷ print ps)

abbrev pub Without : ℕ → List ℕ → Type 0
Without c [] = Unit {0}
Without c (x ∷ s) = ((x == c) ≡ false) × Without c s

-- A name ends where this follows it.
abbrev pub Stops : List ℕ → Type 0
Stops [] = Unit {0}
Stops (x ∷ r) = ((x == b'{') ≡ false) × ((is_alpha x || x == b'}') ≡ false)

-- Texts without '%', known letters, formats without '}', and no name that runs on.
abbrev pub IsWritten : List Piece → Type 0
IsWritten [] = Unit {0}
IsWritten (words s ∷ ps) = Without b'%' s × IsWritten ps
IsWritten (short x f ∷ ps) = (item_of_letter x [] ≡ some f) × Stops (print ps) × IsWritten ps
IsWritten (long x fmt f ∷ ps) = (item_of_letter x fmt ≡ some f) × Without b'}' fmt × IsWritten ps

-- The parts that the pieces become behind a text `nstr`.
abbrev pub parts : List ℕ → List Piece → List Part
parts nstr [] = flush nstr []
parts nstr (words s ∷ ps) = parts (nstr ++ s) ps
parts nstr (short x f ∷ ps) = flush nstr (typed (x ∷ []) [] ∷ parts [] ps)
parts nstr (long x fmt f ∷ ps) = flush nstr (typed (x ∷ []) fmt ∷ parts [] ps)

letter :
    (x : ℕ) (fmt : List ℕ) (f : FormatItem)
    → item_of_letter x fmt ≡ some f
    → ((x == b'%') ≡ false) × ((x == b'{') ≡ false) × (is_alpha x ≡ true)
unfolding item_of_letter
letter x fmt f h = (ground arith, ground arith, ground arith)

read_fmt_lem :
    (str acc fmt r : List ℕ)
    → Without b'}' fmt
    → read_fmt str acc (fmt ++ b'}' ∷ r)
      ≡ record { str = str; fmt = acc ++ fmt; closed = true; left = r }
unfolding read_fmt
read_fmt_lem str acc [] r h =
    ap (λ (t : List ℕ). record { str = str; fmt = t; closed = true; left = r })
      (sym (append-nil acc))
read_fmt_lem str acc (x ∷ fmt) r h = rw (h.0) (
    read_fmt_lem str (acc ++ x ∷ []) fmt r h.1
    ∙ ap (λ (t : List ℕ). record { str = str; fmt = t; closed = true; left = r })
        (append_assoc acc (x ∷ []) fmt))

pub read_str-Stops :
    (str r : List ℕ)
    → Stops r
    → read_str str r ≡ record { str = str; fmt = []; closed = true; left = r }
unfolding read_str
read_str-Stops str [] h = refl
read_str-Stops str (x ∷ r) h = rw (h.0, h.1) refl

pub split_words :
    (f : ℕ) (nstr s r : List ℕ)
    → Without b'%' s
    → length (s ++ r) ≤ f
    → (f' : ℕ) × (length r ≤ f') × (split f nstr (s ++ r) ≡ split f' (nstr ++ s) r)
unfolding split
split_words f nstr [] r h l = (f, l, ap (λ (t : List ℕ). split f t r) (sym (append-nil nstr)))
split_words zero nstr (x ∷ s) r h l = absurd (omega arith)
split_words (suc f) nstr (x ∷ s) r h l =
    let (f', l', e) = split_words f (nstr ++ x ∷ []) s r h.1 (omega arith) in
    (f', l', rw (h.0, split) (e ∙ ap (λ (t : List ℕ). split f' t r) (append_assoc nstr (x ∷ []) s)))

pub split_directive :
    (f : ℕ) (nstr r str fmt left : List ℕ) (l : List Part) (e : Bool)
    → starts_with_percent r ≡ false
    → read_str [] r ≡ record { str = str; fmt = fmt; closed = true; left = left }
    → split f [] left ≡ some (l, e)
    → split (suc f) nstr (b'%' ∷ r) ≡ some (flush nstr (typed str fmt ∷ l), e)
unfolding split after_directive
split_directive f nstr r str fmt left l e h k s = rw (h, split) (rw k (rw s refl))

read_short :
    (x : ℕ) (f : FormatItem) (r : List ℕ)
    → item_of_letter x [] ≡ some f
    → Stops r
    → read_str [] (x ∷ r) ≡ record { str = x ∷ []; fmt = []; closed = true; left = r }
unfolding read_str
read_short x f r h stops =
    let (p, b, a) = letter x [] f h in rw (b, a) (read_str-Stops (x ∷ []) r stops)

read_long :
    (x : ℕ) (fmt : List ℕ) (f : FormatItem) (r : List ℕ)
    → item_of_letter x fmt ≡ some f
    → Without b'}' fmt
    → read_str [] (x ∷ b'{' ∷ (fmt ++ b'}' ∷ r))
      ≡ record { str = x ∷ []; fmt = fmt; closed = true; left = r }
unfolding read_str
read_long x fmt f r h plain =
    let (p, b, a) = letter x fmt f h in rw (b, a) (read_fmt_lem (x ∷ []) [] fmt r plain)

-- The outer loop finds the parts, with one round of fuel for each byte.
pub split-print :
    (f : ℕ) (nstr : List ℕ) (ps : List Piece)
    → IsWritten ps
    → length (print ps) ≤ f
    → split f nstr (print ps) ≡ some (parts nstr ps, false)
unfolding split
split-print zero nstr [] w h = refl
split-print (suc f) nstr [] w h = refl
split-print f nstr (words s ∷ ps) w h =
    let (f', l, e) = split_words f nstr s (print ps) w.0 h in
    e ∙ split-print f' (nstr ++ s) ps w.1 l
split-print zero nstr (short x i ∷ ps) w h = absurd (omega arith)
split-print (suc f) nstr (short x i ∷ ps) w h =
    split_directive f nstr (x ∷ print ps) (x ∷ []) [] (print ps) (parts [] ps) false
      (letter x [] i w.0).0 (read_short x i (print ps) w.0 w.1)
      (split-print f [] ps w.2 (omega arith))
split-print zero nstr (long x fmt i ∷ ps) w h = absurd (omega arith)
split-print (suc f) nstr (long x fmt i ∷ ps) w h =
    split_directive f nstr (x ∷ b'{' ∷ (fmt ++ b'}' ∷ print ps)) (x ∷ []) fmt (print ps)
      (parts [] ps) false (letter x fmt i w.0).0 (read_long x fmt i (print ps) w.0 w.1)
      (split-print f [] ps w.2 (omega (arith, length-append fmt (b'}' ∷ print ps))))

abbrev no_event : LogEvent
no_event = record {
  file = [];
  line_number = 0;
  thread = 0;
  thread_name_of = [];
  fiber = 0;
  time = 0;
  elapse_ms = 0;
  content = [];
  logger_name_of = [];
}

module _ (date : List ℕ → ℕ → List ℕ) (decimal : ℕ → List ℕ) where
  -- What a pattern is to print: its texts as they are, and each directive's item.
  abbrev pub render : List Piece → ℕ → LogEvent → List ℕ
  render [] l e = []
  render (words s ∷ ps) l e = s ++ render ps l e
  render (short x f ∷ ps) l e = format_item date decimal f l e ++ render ps l e
  render (long x fmt f ∷ ps) l e = format_item date decimal f l e ++ render ps l e

  -- The items of a list of parts print `out`, and none is an error.
  record Prints (l : List Part) (level : ℕ) (e : LogEvent) (out : List ℕ) : Type 0 where
    sound : (make_items l).1 ≡ false
    out_is : format date decimal (make_items l).0 level e ≡ out

  flush-Prints :
      (nstr : List ℕ) (l : List Part) (level : ℕ) (e : LogEvent) (out : List ℕ)
      → Prints l level e out
      → Prints (flush nstr l) level e (nstr ++ out)
  unfolding make_items format format_item
  flush-Prints [] l level e out p = p
  flush-Prints (x ∷ nstr) l level e out p = record {
    sound = p.sound;
    out_is = ap (λ (t : List ℕ). (x ∷ nstr) ++ t) p.out_is;
  }

  typed-Prints :
      (x : ℕ) (fmt : List ℕ) (f : FormatItem) (l : List Part) (level : ℕ) (e : LogEvent)
      (out : List ℕ)
      → item_of_letter x fmt ≡ some f
      → Prints l level e out
      → Prints (typed (x ∷ []) fmt ∷ l) level e (format_item date decimal f level e ++ out)
  unfolding make_items format
  typed-Prints x fmt f l level e out h p = record {
    sound = rw (make_items, h) p.sound;
    out_is =
        rw (make_items, h) (ap (λ (t : List ℕ). format_item date decimal f level e ++ t) p.out_is);
  }

  parts-Prints :
      (nstr : List ℕ) (ps : List Piece) (level : ℕ) (e : LogEvent)
      → IsWritten ps
      → Prints (parts nstr ps) level e (nstr ++ render ps level e)
  unfolding make_items format
  parts-Prints nstr [] level e w =
      flush-Prints nstr [] level e [] (record { sound = refl; out_is = refl })
  parts-Prints nstr (words s ∷ ps) level e w =
      subst (Prints (parts (nstr ++ s) ps) level e) (append_assoc nstr s (render ps level e))
        (parts-Prints (nstr ++ s) ps level e w.1)
  parts-Prints nstr (short x f ∷ ps) level e w =
      flush-Prints nstr (typed (x ∷ []) [] ∷ parts [] ps) level e _
        (typed-Prints x [] f (parts [] ps) level e _ w.0 (parts-Prints [] ps level e w.2))
  parts-Prints nstr (long x fmt f ∷ ps) level e w =
      flush-Prints nstr (typed (x ∷ []) fmt ∷ parts [] ps) level e _
        (typed-Prints x fmt f (parts [] ps) level e _ w.0 (parts-Prints [] ps level e w.2))

  -- For a pattern put together from texts without '%' and directives with a known letter, whose
  -- name does not run on and whose format has no '}', LogFormatter finds no error, and format
  -- prints for every event the texts as they are and in their places what the directives stand for.
  pub format-print :
      (ps : List Piece)
      → IsWritten ps
      → (f : LogFormatter) × (new_formatter (print ps) ≡ some f)
        × (f.error ≡ false)
        × ((l : ℕ) (e : LogEvent) → format date decimal f.items l e ≡ render ps l e)
  unfolding new_formatter
  format-print ps w =
      let e = split-print (length (print ps)) [] ps w (omega arith) in
      (
        record {
          pattern_text = print ps;
          items = (make_items (parts [] ps)).0;
          error = (make_items (parts [] ps)).1;
        },
        ap (formatter_of (print ps)) e,
        (parts-Prints [] ps 0 no_event w).sound,
        λ l ev. (parts-Prints [] ps l ev w).out_is,
      )
