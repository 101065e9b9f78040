-- ===== src/Log.antt =====
-- The logging of yuan/log.h, yuan/log.cc and yuan/log_config.h: the patterns of LogFormatter, the
-- loggers with their appenders, and the listener that follows the configuration.
pub mod Pattern
pub mod Loggers
pub mod Listener
