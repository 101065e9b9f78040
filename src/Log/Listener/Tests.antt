-- ===== src/Log/Listener/Tests.antt =====
-- The theorems on loggers and their configuration at concrete inputs.
use cpp_linux_server_frame.Base.{
  ℕ, false, if◌then◌else◌, ◌≡◌, ◌↔◌, true, List, [], ◌∷◌, none, some, arith,
}
use cpp_linux_server_frame.Http.Cstring.{codes}
use cpp_linux_server_frame.Log.Pattern.{LogEvent}
use cpp_linux_server_frame.Log.Loggers.{
  same_text, Logger, Loggers, new_logger, new_appender, to_stdout, set_formatter, del_appender,
  add_appender, LogFile, log_to_file,
}
use cpp_linux_server_frame.Log.Loggers.Laws.{
  Follows, IsWelcome, operations-Follows, log_to_file-Loses,
}
use cpp_linux_server_frame.Log.Listener.{LogDefine}

abbrev with_one : Logger
with_one = add_appender (new_logger (codes "system")) (new_appender to_stdout)

operations-Follows_example :
    Follows (set_formatter with_one none)
    × (Follows with_one → Follows (del_appender with_one 0))
    × (Follows (add_appender with_one (new_appender to_stdout))
        ↔ (Follows with_one × IsWelcome with_one (new_appender to_stdout)))
operations-Follows_example = operations-Follows with_one none (new_appender to_stdout) 0

abbrev file : LogFile
file = record { content = 1 ∷ 2 ∷ []; is_open = true; last_time = 100 }

log_to_file-Loses_example :
    (log_to_file 200 true (8 ∷ 9 ∷ []) (log_to_file 101 true (3 ∷ []) file)).content ≡ 8 ∷ 9 ∷ []
log_to_file-Loses_example =
    log_to_file-Loses 101 200 true (3 ∷ []) (8 ∷ 9 ∷ []) file (omega arith) (omega arith)
      (omega arith)

abbrev root_define : LogDefine
root_define = record {
  name = codes "root";
  level = 1;
  formatter = [];
  appenders = record { type = 2; level = 0; formatter = []; file = [] } ∷ [];
}

abbrev system_define : LogDefine
system_define = record {
  name = codes "system";
  level = 2;
  formatter = codes "%m%n";
  appenders = record { type = 1; level = 3; formatter = []; file = codes "a.txt" } ∷ [];
}

-- The root, which writes to the standard output.
abbrev root_logger : Logger
root_logger = record {
  name = codes "root";
  level = 1;
  appenders =
      record {
        target = to_stdout;
        level = 1;
        formatter = some (record { pattern_text = []; items = []; error = false });
        has_formatter = true;
      }
      ∷ [];
  formatter = none;
  has_root = false;
}

abbrev changed_event : LogEvent
changed_event = record {
  file = [];
  line_number = 614;
  thread = 1;
  thread_name_of = [];
  fiber = 0;
  time = 0;
  elapse_ms = 0;
  content = codes "on_logger_conf_changed";
  logger_name_of = codes "root";
}

abbrev one_logger : Loggers
one_logger n = if same_text (codes "root") n then some root_logger else none

abbrev no_date : List ℕ → ℕ → List ℕ
no_date s n = []

abbrev no_digits : ℕ → List ℕ
no_digits n = []
