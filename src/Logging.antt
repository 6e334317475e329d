-- ===== src/Logging.antt =====
-- base/Logging.h and Logging.cc: which calls print, and what. A character is a number, and the text of
-- a call is what `vsnprintf` makes of the format and the arguments in a buffer that is large enough.
use mtnet.Prelude.{ℕ, List, [], ◌∷◌, ◌++◌, take, leb, if◌then◌else◌}
pub mod Levels
mod Tests

pub data LogLevel : Type 0 where
  level_trace level_debug level_info level_warn level_error level_fatal : LogLevel

-- The value of the enumerator.
abbrev pub value : LogLevel → ℕ
value level_trace = 0
value level_debug = 1
value level_info = 2
value level_warn = 3
value level_error = 4
value level_fatal = 5

-- `LOG_LEVEL`, where the build sets no other.
abbrev pub default_log_level : LogLevel
default_log_level = level_info

-- The buffer has 512 characters, the last of which ends the string, and the format is "%s \n".
unfoldable pub actual_print : List ℕ → List ℕ
actual_print text = take 511 text ++ 32 ∷ 10 ∷ []

-- `LOG_TRACE`, by the `LOG_LEVEL` of the build: what it prints.
unfoldable pub log_trace : LogLevel → List ℕ → List ℕ
unfolding actual_print
log_trace log_level text =
    if leb (value log_level) (value level_trace) then actual_print text else []

-- `LOG_DEBUG`, by the `LOG_LEVEL` of the build: what it prints.
unfoldable pub log_debug : LogLevel → List ℕ → List ℕ
unfolding actual_print
log_debug log_level text =
    if leb (value log_level) (value level_debug) then actual_print text else []

-- `LOG_INFO`, by the `LOG_LEVEL` of the build: what it prints.
unfoldable pub log_info : LogLevel → List ℕ → List ℕ
unfolding actual_print
log_info log_level text = if leb (value log_level) (value level_info) then actual_print text else []

-- `LOG_WARN`, by the `LOG_LEVEL` of the build: what it prints.
unfoldable pub log_warn : LogLevel → List ℕ → List ℕ
unfolding actual_print
log_warn log_level text = if leb (value log_level) (value level_warn) then actual_print text else []

-- `LOG_ERROR`, by the `LOG_LEVEL` of the build: what it prints.
unfoldable pub log_error : LogLevel → List ℕ → List ℕ
unfolding actual_print
log_error log_level text =
    if leb (value log_level) (value level_error) then actual_print text else []

-- `LOG_FATAL`, by the `LOG_LEVEL` of the build: what it prints.
unfoldable pub log_fatal : LogLevel → List ℕ → List ℕ
unfolding actual_print
log_fatal log_level text =
    if leb (value log_level) (value level_fatal) then actual_print text else []

-- A call in a program: the function of that level.
unfoldable pub log : LogLevel → LogLevel → List ℕ → List ℕ
unfolding log_trace log_debug log_info log_warn log_error log_fatal
log log_level level_trace text = log_trace log_level text
log log_level level_debug text = log_debug log_level text
log log_level level_info text = log_info log_level text
log log_level level_warn text = log_warn log_level text
log log_level level_error text = log_error log_level text
log log_level level_fatal text = log_fatal log_level text
