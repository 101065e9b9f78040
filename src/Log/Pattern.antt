-- ===== src/Log/Pattern.antt =====
-- LogFormatter: init, which parses a pattern, and format. A string is the list of its bytes. strftime
-- of localtime_r and the printing of integers by a stream are parameters of format.
pub mod Written
pub mod Ended
mod Tests
use cpp_linux_server_frame.Base.{
  ℕ, zero, suc, Bool, true, false, ◌||◌, ◌&&◌, List, [], ◌∷◌, ◌++◌, Option, none, some, leb, ◌==◌,
  if◌then◌else◌, length,
}
use cpp_linux_server_frame.Http.Cstring.{codes}

-- isalpha in the C locale
abbrev pub is_alpha : ℕ → Bool
is_alpha c = (leb b'a' c && leb c b'z') || (leb b'A' c && leb c b'Z')

-- What init pushes to `vec`: a text, of type 0, or str and fmt, of type 1.
pub data Part : Type 0 where
  normal : List ℕ → Part
  typed : (str fmt : List ℕ) → Part

-- What the inner loop finds behind a '%': str, fmt, whether fmt_status is 0 at its end, and what
-- stands at `n` and behind.
pub record Directive : Type 0 where
  pub str : List ℕ
  pub fmt : List ℕ
  pub closed : Bool
  pub left : List ℕ

-- The inner loop in fmt_status 1, with the bytes since fmt_begin.
unfoldable pub read_fmt : List ℕ → List ℕ → List ℕ → Directive
read_fmt str fmt [] = record { str = str; fmt = []; closed = false; left = [] }
read_fmt str fmt (x ∷ r) =
    if x == b'}'
    then record { str = str; fmt = fmt; closed = true; left = r }
    else read_fmt str (fmt ++ x ∷ []) r

-- The inner loop in fmt_status 0, with the bytes since i + 1.
unfoldable pub read_str : List ℕ → List ℕ → Directive
read_str str [] = record { str = str; fmt = []; closed = true; left = [] }
read_str str (x ∷ r) =
    if x == b'{'
    then read_fmt str [] r
    else if is_alpha x || x == b'}'
    then read_str (str ++ x ∷ []) r
    else record { str = str; fmt = []; closed = true; left = x ∷ r }

abbrev pub flush : List ℕ → List Part → List Part
flush [] l = l
flush (x ∷ nstr) l = normal (x ∷ nstr) ∷ l

abbrev pub starts_with_percent : List ℕ → Bool
starts_with_percent [] = false
starts_with_percent (x ∷ r) = x == b'%'

-- The parts, and whether m_error is set.
abbrev pub Parts : Type 0
Parts = List Part × Bool

abbrev pub before : (List Part → List Part) → Option Parts → Option Parts
before f none = none
before f (some (l, e)) = some (f l, e)

-- What follows a directive: the rest of the pattern, or nothing behind an open '{'.
unfoldable pub after_directive : (List ℕ → Option Parts) → List ℕ → Directive → Option Parts
after_directive rest nstr d =
    if d.closed
    then before (λ l. flush nstr (typed d.str d.fmt ∷ l)) (rest d.left)
    else some (flush nstr (normal (codes "<<pattern_error>>") ∷ []), true)

-- The outer loop from `i` on, with the text so far. `none` is a loop without fuel.
unfoldable pub split : ℕ → List ℕ → List ℕ → Option Parts
split fuel nstr [] = some (flush nstr [], false)
split zero nstr (x ∷ r) = none
split (suc fuel) nstr (x ∷ r) = elim (x == b'%') [
  | false ↦ split fuel (nstr ++ x ∷ []) r
  | true ↦ elim (starts_with_percent r) [
    | true ↦ split fuel (nstr ++ b'%' ∷ []) r
    | false ↦ after_directive (split fuel []) nstr (read_str [] r)
  ]
]

-- The classes of FormatItem that keep no string.
pub data Kind : Type 0 where
  message level elapse logger_name thread_id thread_name new_line filename line tab fiber_id : Kind

pub data FormatItem : Type 0 where
  of_kind : Kind → FormatItem
  date_time string : List ℕ → FormatItem

-- The constructor of DateTimeFormatItem.
abbrev pub new_date_time : List ℕ → FormatItem
new_date_time [] = date_time (codes "%D")
new_date_time (x ∷ format) = date_time (x ∷ format)

-- The entry of s_format_items for a name of one letter, applied to fmt.
unfoldable pub item_of_letter : ℕ → List ℕ → Option FormatItem
item_of_letter x fmt =
    if x == b'm'
    then some (of_kind message)
    else if x == b'p'
    then some (of_kind level)
    else if x == b'r'
    then some (of_kind elapse)
    else if x == b'c'
    then some (of_kind logger_name)
    else if x == b't'
    then some (of_kind thread_id)
    else if x == b'N'
    then some (of_kind thread_name)
    else if x == b'n'
    then some (of_kind new_line)
    else if x == b'd'
    then some (new_date_time fmt)
    else if x == b'f'
    then some (of_kind filename)
    else if x == b'l'
    then some (of_kind line)
    else if x == b'T'
    then some (of_kind tab)
    else if x == b'F'
    then some (of_kind fiber_id)
    else none

-- s_format_items.find
abbrev pub find_item : List ℕ → List ℕ → Option FormatItem
find_item [] fmt = none
find_item (x ∷ []) fmt = item_of_letter x fmt
find_item (x ∷ y ∷ str) fmt = none

abbrev pub push : FormatItem → List FormatItem × Bool → List FormatItem × Bool
push f (l, e) = (f ∷ l, e)

abbrev pub push_found : List ℕ → Option FormatItem → List FormatItem × Bool → List FormatItem × Bool
push_found str (some f) (l, e) = (f ∷ l, e)
push_found str none (l, e) = (string (codes "<<error_format %" ++ (str ++ codes ">>")) ∷ l, true)

-- The last loop of init: m_items, and whether it sets m_error.
unfoldable pub make_items : List Part → List FormatItem × Bool
make_items [] = ([], false)
make_items (normal s ∷ l) = push (string s) (make_items l)
make_items (typed str fmt ∷ l) = push_found str (find_item str fmt) (make_items l)

pub record LogFormatter : Type 0 where
  pub pattern_text : List ℕ
  pub items : List FormatItem
  pub error : Bool

abbrev pub formatter_of : List ℕ → Option Parts → Option LogFormatter
formatter_of p none = none
formatter_of p (some (l, e)) =
    let made = make_items l in
    some (record { pattern_text = p; items = made.0; error = e || made.1 })

-- LogFormatter::LogFormatter
unfoldable pub new_formatter : List ℕ → Option LogFormatter
new_formatter p = formatter_of p (split (length p) [] p)

-- What the items read of an event.
pub record LogEvent : Type 0 where
  pub file : List ℕ
  pub line_number : ℕ
  pub thread : ℕ
  pub thread_name_of : List ℕ
  pub fiber : ℕ
  pub time : ℕ
  pub elapse_ms : ℕ
  pub content : List ℕ
  pub logger_name_of : List ℕ

-- LogLevel::ToString
unfoldable pub level_name : ℕ → List ℕ
level_name l =
    if l == 1
    then codes "DEBUG"
    else if l == 2
    then codes "INFO"
    else if l == 3
    then codes "WARN"
    else if l == 4
    then codes "ERROR"
    else if l == 5
    then codes "FATAL"
    else codes "UNKNOWN"

module _ (date : List ℕ → ℕ → List ℕ) (decimal : ℕ → List ℕ) where
  unfoldable pub format_kind : Kind → ℕ → LogEvent → List ℕ
  format_kind message l e = e.content
  format_kind level l e = level_name l
  format_kind elapse l e = decimal e.elapse_ms
  format_kind logger_name l e = e.logger_name_of
  format_kind thread_id l e = decimal e.thread
  format_kind thread_name l e = e.thread_name_of
  format_kind new_line l e = 10 ∷ []
  format_kind filename l e = e.file
  format_kind line l e = decimal e.line_number
  format_kind tab l e = 9 ∷ []
  format_kind fiber_id l e = decimal e.fiber

  -- The virtual format of the classes of FormatItem.
  unfoldable pub format_item : FormatItem → ℕ → LogEvent → List ℕ
  format_item (of_kind k) l e = format_kind k l e
  format_item (date_time f) l e = date f e.time
  format_item (string s) l e = s

  -- LogFormatter::format
  unfoldable pub format : List FormatItem → ℕ → LogEvent → List ℕ
  format [] l e = []
  format (f ∷ items) l e = format_item f l e ++ format items l e
