-- ===== src/Log/Loggers.antt =====
-- LogAppender, Logger and LoggerManager. An appender is part of the logger that it was added to, and
-- is named by its place in the list. A shared pointer that is null is `none`. The m_root of a logger
-- is null, or the logger "root" of the manager.
pub mod Laws
use cpp_linux_server_frame.Base.{
  ℕ, zero, suc, ◌+◌, ◌-◌, ◌%◌, ◌^◌, ◌≡◌, Bool, true, false, ◌&&◌, List, [], ◌∷◌, ◌++◌, Option, none,
  some, map, ltb, leb, ◌==◌, if◌then◌else◌,
}
use cpp_linux_server_frame.Http.Cstring.{codes}
use cpp_linux_server_frame.Log.Pattern.{LogFormatter, new_formatter, LogEvent, format}

-- operator== of std::string
unfoldable pub same_text : List ℕ → List ℕ → Bool
same_text [] [] = true
same_text [] (y ∷ b) = false
same_text (x ∷ a) [] = false
same_text (x ∷ a) (y ∷ b) = x == y && same_text a b

-- LogLevel::FromString
unfoldable pub level_from_text : List ℕ → ℕ
level_from_text s =
    if same_text s (codes "debug")
    then 1
    else if same_text s (codes "info")
    then 2
    else if same_text s (codes "warn")
    then 3
    else if same_text s (codes "error")
    then 4
    else if same_text s (codes "fatal")
    then 5
    else if same_text s (codes "DEBUG")
    then 1
    else if same_text s (codes "INFO")
    then 2
    else if same_text s (codes "WARN")
    then 3
    else if same_text s (codes "ERROR")
    then 4
    else if same_text s (codes "FATAL")
    then 5
    else 0

-- StdoutLogAppender, or FileLogAppender with its file.
pub data Target : Type 0 where
  to_stdout : Target
  to_file : List ℕ → Target

pub record LogAppender : Type 0 where
  pub target : Target
  pub level : ℕ
  pub formatter : Option LogFormatter
  pub has_formatter : Bool

abbrev pub new_appender : Target → LogAppender
new_appender t = record { target = t; level = 1; formatter = none; has_formatter = false }

-- LogAppender::setFormatter(formatter)
unfoldable pub set_own_formatter : LogAppender → Option LogFormatter → LogAppender
set_own_formatter a none = a
set_own_formatter a (some f) = record a { formatter = some f; has_formatter = true }

-- A formatter that has been made from a text, where it has no error.
abbrev pub accepted : Option LogFormatter → Option LogFormatter
accepted none = none
accepted (some f) = if f.error then none else some f

-- LogAppender::setFormatter(format)
unfoldable pub set_own_format : LogAppender → List ℕ → LogAppender
set_own_format a text = set_own_formatter a (accepted (new_formatter text))

pub record Logger : Type 0 where
  pub name : List ℕ
  pub level : ℕ
  pub appenders : List LogAppender
  pub formatter : Option LogFormatter
  -- Whether m_root is not null.
  pub has_root : Bool

-- Logger::Logger
unfoldable pub new_logger : List ℕ → Logger
new_logger name = record {
  name = name;
  level = 1;
  appenders = [];
  formatter = new_formatter (codes "%d{%Y-%m-%d %H:%M:%S}%T%t%T%N%T%F%T[%p]%T[%c]%T<%f:%l>%T%m%n");
  has_root = false;
}

-- What addAppender stores.
abbrev pub adopted : Logger → LogAppender → LogAppender
adopted l a = elim a.formatter [ none ↦ record a { formatter = l.formatter } | some f ↦ a ]

-- Logger::addAppender
unfoldable pub add_appender : Logger → LogAppender → Logger
add_appender l a = record l { appenders = l.appenders ++ adopted l a ∷ [] }

abbrev pub without : List LogAppender → ℕ → List LogAppender
without [] i = []
without (a ∷ l) zero = l
without (a ∷ l) (suc i) = a ∷ without l i

-- Logger::delAppender; the appender at place `i`
unfoldable pub del_appender : Logger → ℕ → Logger
del_appender l i = record l { appenders = without l.appenders i }

-- Logger::clearAppenders
abbrev pub clear_appenders : Logger → Logger
clear_appenders l = record l { appenders = [] }

abbrev pub following : Option LogFormatter → LogAppender → LogAppender
following f a = if a.has_formatter then a else record a { formatter = f }

-- Logger::setFormatter(formatter)
unfoldable pub set_formatter : Logger → Option LogFormatter → Logger
set_formatter l f = record l { formatter = f; appenders = map (following f) l.appenders }

abbrev pub set_if_some : Logger → Option LogFormatter → Logger
set_if_some l none = l
set_if_some l (some f) = set_formatter l (some f)

-- Logger::setFormatter(format)
unfoldable pub set_format : Logger → List ℕ → Logger
set_format l text = set_if_some l (accepted (new_formatter text))

-- The loggers by name. The map of LoggerManager is a function.
abbrev pub Loggers : Type 0
Loggers = List ℕ → Option Logger

-- LoggerManager::getLogger: the logger, whether found or new; and the map with it.
abbrev pub found_or_new : List ℕ → Option Logger → Logger
found_or_new name (some l) = l
found_or_new name none = record (new_logger name) { has_root = true }

abbrev pub put : List ℕ → Logger → Loggers → Loggers
put name l m other = if same_text name other then some l else m other

unfoldable pub get_logger : List ℕ → Loggers → Logger × Loggers
get_logger name m = let l = found_or_new name (m name) in (l, put name l m)

-- What a call of log writes, by target, or a null pointer that is followed.
pub data Logged : Type 0 where
  wrote : List (Target × List ℕ) → Logged
  null_pointer : Logged

abbrev pub and_wrote : Target × List ℕ → Logged → Logged
and_wrote w null_pointer = null_pointer
and_wrote w (wrote l) = wrote (w ∷ l)

module _ (date : List ℕ → ℕ → List ℕ) (decimal : ℕ → List ℕ) where
  abbrev pub written : LogAppender → ℕ → LogEvent → Logged → Logged
  written a level e rest = elim a.formatter [
    | none ↦ null_pointer
    | some f ↦ and_wrote (a.target, format date decimal f.items level e) rest
  ]

  -- The loop of Logger::log over the appenders, with the log of each.
  unfoldable pub log_appenders : List LogAppender → ℕ → LogEvent → Logged
  log_appenders [] level e = wrote []
  log_appenders (a ∷ l) level e =
      let rest = log_appenders l level e in
      if leb a.level level then written a level e rest else rest

  -- Logger::log of the root, whose m_root is null.
  unfoldable pub log_root : Option Logger → ℕ → LogEvent → Logged
  log_root none level e = null_pointer
  log_root (some l) level e =
      if leb l.level level
      then elim l.appenders [ [] ↦ null_pointer | a ∷ r ↦ log_appenders (a ∷ r) level e ]
      else wrote []

  -- Logger::log
  unfoldable pub log : Loggers → Logger → ℕ → LogEvent → Logged
  log m l level e =
      if leb l.level level
      then elim l.appenders [
        | [] ↦ if l.has_root then log_root (m (codes "root")) level e else null_pointer
        | a ∷ r ↦ log_appenders (a ∷ r) level e
      ]
      else wrote []

-- A file and the state of the FileLogAppender that writes it.
pub record LogFile : Type 0 where
  pub content : List ℕ
  pub is_open : Bool
  pub last_time : ℕ

-- FileLogAppender::reopen; `opens` is whether open succeeds, which truncates the file.
unfoldable pub reopen : Bool → LogFile → LogFile
reopen opens f = record f { content = if opens then [] else f.content; is_open = opens }

-- FileLogAppender::log of a message whose level is high enough
unfoldable pub log_to_file : ℕ → Bool → List ℕ → LogFile → LogFile
log_to_file now opens message f =
    let f' =
      if ltb 3 ((now + (2 ^ 64 - f.last_time)) % 2 ^ 64)
      then record (reopen opens f) { last_time = now }
      else f in
    if f'.is_open then record f' { content = f'.content ++ message } else f'
