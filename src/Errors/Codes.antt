-- ===== src/Errors/Codes.antt =====
-- ErrorCodes.h and the helpers of Error.h: error digits and the code that the display shows.
use planetopia_nodes.Shared.{ℕ, ◌+◌, ◌*◌, ◌%◌}

pub data ErrorTypeDigit : Type 0 where
  generic sensor comm memory hardware config : ErrorTypeDigit

pub data ModuleDigit : Type 0 where
  core adapter mesh eeprom hw : ModuleDigit

pub data ErrorType : Type 0 where
  generic sensor_fail communication_fail memory_error config_error hardware_failure user_error
        timeout_error :
      ErrorType

abbrev pub type_digit : ErrorTypeDigit → ℕ
type_digit ErrorTypeDigit.generic = 1
type_digit ErrorTypeDigit.sensor = 2
type_digit ErrorTypeDigit.comm = 3
type_digit ErrorTypeDigit.memory = 4
type_digit ErrorTypeDigit.hardware = 5
type_digit ErrorTypeDigit.config = 6

abbrev pub module_digit : ModuleDigit → ℕ
module_digit ModuleDigit.core = 1
module_digit ModuleDigit.adapter = 2
module_digit ModuleDigit.mesh = 3
module_digit ModuleDigit.eeprom = 4
module_digit ModuleDigit.hw = 5

-- The cast to uint16_t is `% 65536`.
unfoldable pub make_error_code : ErrorTypeDigit → ModuleDigit → ℕ → ℕ
make_error_code t m sub = (type_digit t * 100 + module_digit m * 10 + sub % 10) % 65536

-- `toDigit` of Error.h: the legacy error types as digits.
unfoldable pub to_digit : ErrorType → ErrorTypeDigit
to_digit ErrorType.generic = ErrorTypeDigit.generic
to_digit ErrorType.sensor_fail = ErrorTypeDigit.sensor
to_digit ErrorType.communication_fail = ErrorTypeDigit.comm
to_digit ErrorType.memory_error = ErrorTypeDigit.memory
to_digit ErrorType.config_error = ErrorTypeDigit.config
to_digit ErrorType.hardware_failure = ErrorTypeDigit.hardware
to_digit ErrorType.user_error = ErrorTypeDigit.generic
to_digit ErrorType.timeout_error = ErrorTypeDigit.generic

-- What a call of err::fail hands to ErrorCore.
pub record Fault : Type 0 where
  pub kind : ErrorTypeDigit
  pub place : ModuleDigit
  pub sub : ℕ

abbrev pub fault : ErrorTypeDigit → ModuleDigit → ℕ → Fault
fault t m sub = record { kind = t; place = m; sub = sub }

-- The legacy overload `fail(ErrorType, msg)`.
abbrev pub legacy_fault : ErrorType → Fault
legacy_fault t = fault (to_digit t) ModuleDigit.core 0
