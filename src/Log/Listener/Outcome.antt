-- ===== src/Log/Listener/Outcome.antt =====
-- The listener on the configuration "logs" as a whole.
use cpp_linux_server_frame.Base.{◌≢◌, ◌⊎◌, ℕ, ◌<◌, ◌≡◌, List, [], ◌∷◌, Option, none, some}
use cpp_linux_server_frame.Log.Pattern.{LogEvent}
use cpp_linux_server_frame.Log.Loggers.{LogAppender, Logger, Loggers, wrote, log}
use cpp_linux_server_frame.Log.Listener.{LogDefine, find_define}
use cpp_linux_server_frame.Log.Listener.Laws.{changed}
use cpp_linux_server_frame.Log.Listener.Configured.{IsFor}

-- A logger that writes nothing below level 100.
abbrev pub IsSilent : Loggers → Logger → Type 0
IsSilent m l =
    (date : List ℕ → ℕ → List ℕ) (decimal : ℕ → List ℕ) (level : ℕ) (e : LogEvent)
    → level < 100
    → log date decimal m l level e ≡ wrote []

-- The logger of the name `n`, before and after.
pub data LoggerAfter (old new : List LogDefine) (m m' : Loggers) (n : List ℕ) : Type 0 where
  as_defined :
      (d : LogDefine) (l : Logger)
      → changed old (find_define n new) ≡ some d
      → m' n ≡ some l
      → IsFor d l
      → LoggerAfter old new m m' n
  silent :
      (o : LogDefine) (l : Logger)
      → find_define n new ≡ none
      → find_define n old ≡ some o
      → m' n ≡ some l
      → IsSilent m' l
      → LoggerAfter old new m m' n
  untouched : changed old (find_define n new) ≡ none → m' n ≡ m n → LoggerAfter old new m m' n

abbrev pub AllFormatted : List LogAppender → Type 0
AllFormatted [] = Unit {0}
AllFormatted (a ∷ l) = (a.formatter ≢ none) × AllFormatted l

-- The root logger can be asked to log at level INFO: it takes none of it, or it has appenders, which
-- all have a formatter.
abbrev pub CanLog : Option Logger → Type 0
CanLog none = ⊥
CanLog (some l) = (2 < l.level) ⊎ ((l.appenders ≢ []) × AllFormatted l.appenders)
