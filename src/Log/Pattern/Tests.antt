-- ===== src/Log/Pattern/Tests.antt =====
-- Runs of LogFormatter, and the theorems at concrete inputs.
use cpp_linux_server_frame.Base.{ℕ, ◌≡◌, refl, true, false, List, [], ◌∷◌, some}
use cpp_linux_server_frame.Http.Cstring.{codes}
use cpp_linux_server_frame.Log.Pattern.{
  read_fmt, read_str, after_directive, split, level, message, of_kind, date_time, string,
  item_of_letter, make_items, LogFormatter, new_formatter, LogEvent, format,
}
use cpp_linux_server_frame.Log.Pattern.Written.{
  Piece, words, short, long, print, IsWritten, render, format-print,
}
use cpp_linux_server_frame.Log.Pattern.Ended.{percent_refused}

abbrev pieces : List Piece
pieces =
    long b'd' (codes "%H:%M") (date_time (codes "%H:%M"))
    ∷ words (codes " [")
    ∷ short b'p' (of_kind level)
    ∷ words (codes "] ")
    ∷ short b'm' (of_kind message)
    ∷ []

pieces_text : print pieces ≡ codes "%d{%H:%M} [%p] %m"
pieces_text = refl

pieces_items :
    new_formatter (codes "%d{%H:%M} [%p] %m")
    ≡ some (record {
      pattern_text = codes "%d{%H:%M} [%p] %m";
      items =
          date_time (codes "%H:%M")
          ∷ string (codes " [")
          ∷ of_kind level
          ∷ string (codes "] ")
          ∷ of_kind message
          ∷ [];
      error = false;
    })
unfolding new_formatter split after_directive read_str read_fmt make_items item_of_letter
pieces_items = refl

pieces-IsWritten : IsWritten pieces
unfolding item_of_letter
pieces-IsWritten = (
  refl,
  (refl, (refl, (refl, (refl, (refl, tt))))),
  ((refl, (refl, tt)), (refl, (refl, refl), ((refl, (refl, tt)), (refl, tt, tt)))),
)

abbrev date : List ℕ → ℕ → List ℕ
date f t = codes "12:00"

abbrev decimal : ℕ → List ℕ
decimal n = b'0' ∷ []

format-print_example :
    (f : LogFormatter) × (new_formatter (print pieces) ≡ some f)
    × (f.error ≡ false)
    × ((l : ℕ) (e : LogEvent) → format date decimal f.items l e ≡ render date decimal pieces l e)
format-print_example = format-print date decimal pieces pieces-IsWritten

percent_refused_example :
    (f : LogFormatter) × (new_formatter (b'%' ∷ b'%' ∷ codes " done") ≡ some f) × (f.error ≡ true)
percent_refused_example =
    percent_refused (codes " done") (refl, (refl, (refl, (refl, (refl, tt))))) (refl, refl)
