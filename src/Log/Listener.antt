-- ===== src/Log/Listener.antt =====
-- The listener of LogIniter (yuan/log.cc) on the configuration "logs", whose values are sets of
-- LogDefine (yuan/log_config.h), ordered and found by name.
pub mod Laws
pub mod Configured
pub mod Outcome
mod Tests
use cpp_linux_server_frame.Base.{
  ℕ, Bool, true, false, ◌&&◌, List, [], ◌∷◌, Option, none, some, ◌==◌, if◌then◌else◌,
}
use cpp_linux_server_frame.Http.Cstring.{codes}
use cpp_linux_server_frame.Log.Pattern.{LogEvent}
use cpp_linux_server_frame.Log.Loggers.{
  null_pointer, wrote, log_root, same_text, Target, to_stdout, to_file, LogAppender, new_appender,
  set_own_format, Logger, add_appender, clear_appenders, set_format, Loggers, found_or_new, put,
  get_logger,
}

pub record LogAppenderDefine : Type 0 where
  -- 1 is a file, and 2 the standard output.
  pub type : ℕ
  pub level : ℕ
  pub formatter : List ℕ
  pub file : List ℕ

pub record LogDefine : Type 0 where
  pub name : List ℕ
  pub level : ℕ
  pub formatter : List ℕ
  pub appenders : List LogAppenderDefine

-- operator== of the two
abbrev pub same_appender : LogAppenderDefine → LogAppenderDefine → Bool
same_appender a b =
    a.type == b.type
    && a.level == b.level
    && same_text a.formatter b.formatter
    && same_text a.file b.file

abbrev pub same_appenders : List LogAppenderDefine → List LogAppenderDefine → Bool
same_appenders [] [] = true
same_appenders [] (b ∷ m) = false
same_appenders (a ∷ l) [] = false
same_appenders (a ∷ l) (b ∷ m) = same_appender a b && same_appenders l m

unfoldable pub same_define : LogDefine → LogDefine → Bool
same_define a b =
    same_text a.name b.name
    && a.level == b.level
    && same_text a.formatter b.formatter
    && same_appenders a.appenders b.appenders

-- find on a set of LogDefine
unfoldable pub find_define : List ℕ → List LogDefine → Option LogDefine
find_define name [] = none
find_define name (d ∷ l) = if same_text d.name name then some d else find_define name l

-- The appender of a definition; a null pointer for an unknown type.
abbrev pub target_of : LogAppenderDefine → Option Target
target_of d =
    if d.type == 1 then some (to_file d.file) else if d.type == 2 then some to_stdout else none

abbrev pub is_empty : List ℕ → Bool
is_empty [] = true
is_empty (x ∷ s) = false

abbrev pub appender_for : LogAppenderDefine → Target → LogAppender
appender_for d t =
    let a : LogAppender = record (new_appender t) { level = d.level } in
    if is_empty d.formatter then a else set_own_format a d.formatter

-- The loop over the appenders of a definition; `none` is a null pointer that is followed.
unfoldable pub add_appenders : List LogAppenderDefine → Logger → Option Logger
add_appenders [] l = some l
add_appenders (d ∷ ds) l = elim (target_of d) [
  | none ↦ none
  | some t ↦ add_appenders ds (add_appender l (appender_for d t))
]

-- What the listener does to the logger of a definition that is new or has changed.
unfoldable pub configure : LogDefine → Logger → Option Logger
configure d l =
    let l' : Logger = record l { level = d.level } in
    let l'' = if is_empty d.formatter then l' else set_format l' d.formatter in
    add_appenders d.appenders (clear_appenders l'')

abbrev pub unchanged : Option LogDefine → LogDefine → Bool
unchanged none d = false
unchanged (some o) d = same_define o d

-- The loop over the new definitions.
unfoldable pub configure_all : List LogDefine → List LogDefine → Loggers → Option Loggers
configure_all old [] m = some m
configure_all old (d ∷ ds) m = elim (unchanged (find_define d.name old) d) [
  | true ↦ configure_all old ds m
  | false ↦ elim (configure d (get_logger d.name m).0) [
    | none ↦ none
    | some l ↦ configure_all old ds (put d.name l (get_logger d.name m).1)
  ]
]

-- What becomes of the logger of a definition that is gone.
abbrev pub silenced : Logger → Logger
silenced l = clear_appenders (record l { level = 100 })

-- The loop over the old definitions.
unfoldable pub silence_all : List LogDefine → List LogDefine → Loggers → Loggers
silence_all new [] m = m
silence_all new (o ∷ os) m = elim (find_define o.name new) [
  | some d ↦ silence_all new os m
  | none ↦
      silence_all new os (put o.name (silenced (get_logger o.name m).0) (get_logger o.name m).1)
]

-- The listener. It first logs the message `e` to the root, at level INFO.
unfoldable pub on_logs_changed :
    (List ℕ → ℕ → List ℕ)
    → (ℕ → List ℕ)
    → LogEvent
    → List LogDefine
    → List LogDefine
    → Loggers
    → Option Loggers
on_logs_changed date decimal e old new m = elim (log_root date decimal (m (codes "root")) 2 e) [
  | null_pointer ↦ none
  | wrote l ↦ elim (configure_all old new m) [
    | none ↦ none
    | some m' ↦ some (silence_all new old m')
  ]
]
