-- ===== src/Log/Logger.antt =====
-- Logger.cpp: what each call prints at the current level.
use planetopia_nodes.Shared.{ℕ, Bool, [], ◌∷◌, ◌++◌, ltb, if◌then◌else◌}
use planetopia_nodes.Log.Text.{Text, text}

pub data LogLevel : Type 0 where
  log_debug log_info log_warn log_error log_none : LogLevel

-- The values of the enum, by which the levels are compared.
abbrev pub rank : LogLevel → ℕ
rank log_debug = 0
rank log_info = 1
rank log_warn = 2
rank log_error = 3
rank log_none = 4

-- `println` ends a line.
abbrev pub line_end : Text
line_end = 13 ∷ 10 ∷ []

-- `currentLevel > level`
abbrev pub is_hidden : LogLevel → LogLevel → Bool
is_hidden current level = ltb (rank level) (rank current)

unfoldable pub logln : LogLevel → Text → Text → LogLevel → Text
logln current tag message level =
    if is_hidden current level then [] else text "[" ++ tag ++ text "] " ++ message ++ line_end

unfoldable pub log : LogLevel → Text → Text → LogLevel → Text
log current tag message level =
    if is_hidden current level then [] else text "[" ++ tag ++ text "] " ++ message

-- `debug`, `info`, `warn` and `error`, over what vprintf makes of the arguments.
abbrev pub prefixed : LogLevel → LogLevel → Text → Text → Text
prefixed current level prefix formatted =
    if is_hidden current level then [] else prefix ++ formatted ++ line_end

unfoldable pub debug : LogLevel → Text → Text
debug current formatted = prefixed current log_debug (text "[DEBUG] ") formatted

unfoldable pub info : LogLevel → Text → Text
info current formatted = prefixed current log_info (text "[INFO] ") formatted

unfoldable pub warn : LogLevel → Text → Text
warn current formatted = prefixed current log_warn (text "[WARN] ") formatted

unfoldable pub error : LogLevel → Text → Text
error current formatted = prefixed current log_error (text "[ERROR] ") formatted
