-- ===== src/Errors/Core.antt =====
-- ErrorCore.cpp: the state of the reporter, and what it does to LED, display and CPU.
use planetopia_nodes.Shared.{ℕ, Bool, true, false, ◌&&◌, List, [], ◌∷◌, ◌++◌, if◌then◌else◌}
use planetopia_nodes.Errors.Codes.{
  ErrorTypeDigit, ModuleDigit, ErrorType, make_error_code, Fault, fault,
}

-- The members of ErrorCore; a pointer is kept as whether it is set, and for the LED whether it
-- `isInitialized()`.
pub record ErrorCore : Type 0 where
  pub has_error_led : Bool
  pub led_ready : Bool
  pub has_display : Bool
  pub initialized : Bool
  pub pending_blink : Bool
  pub pending_blink_type : ErrorType
  pub in_callback_context : Bool

pub data Effect : Type 0 where
  show : ℕ → Effect
  blink : ℕ → Effect
  restart : Effect

abbrev pub fresh : ErrorCore
fresh = record {
  has_error_led = false;
  led_ready = false;
  has_display = false;
  initialized = false;
  pending_blink = false;
  pending_blink_type = ErrorType.generic;
  in_callback_context = false;
}

-- The lookup of the legacy type in `signalError(ErrorTypeDigit, ...)`.
unfoldable pub legacy_type : ErrorTypeDigit → ErrorType
legacy_type ErrorTypeDigit.hardware = ErrorType.hardware_failure
legacy_type ErrorTypeDigit.comm = ErrorType.communication_fail
legacy_type ErrorTypeDigit.memory = ErrorType.memory_error
legacy_type ErrorTypeDigit.config = ErrorType.config_error
legacy_type _ = ErrorType.generic

unfoldable pub blinks : ErrorType → ℕ
blinks ErrorType.generic = 1
blinks ErrorType.sensor_fail = 2
blinks ErrorType.communication_fail = 3
blinks ErrorType.memory_error = 4
blinks ErrorType.config_error = 5
blinks ErrorType.hardware_failure = 6
blinks ErrorType.user_error = 7
blinks ErrorType.timeout_error = 8

unfoldable pub should_restart : ErrorType → Bool
should_restart ErrorType.memory_error = true
should_restart ErrorType.hardware_failure = true
should_restart _ = false

unfoldable pub blink_pattern : ErrorCore → ErrorType → List Effect
unfolding blinks
blink_pattern c t = if c.has_error_led && c.led_ready then blink (blinks t) ∷ [] else []

-- `restartDevice` does not return, so `restart` is the last effect.
unfoldable pub restart_if_needed : ErrorType → List Effect
unfolding should_restart
restart_if_needed t = if should_restart t then restart ∷ [] else []

-- `signalError(ErrorType, msg)`
unfoldable pub signal_type : ErrorCore → ErrorType → ErrorCore × List Effect
unfolding blink_pattern restart_if_needed
signal_type c t =
    if c.initialized && c.has_error_led
    then (if c.in_callback_context
        then (record c { pending_blink = true; pending_blink_type = t }, restart_if_needed t)
        else (c, blink_pattern c t ++ restart_if_needed t))
    else (c, restart_if_needed t)

-- `signalError(ErrorTypeDigit, ModuleDigit, sub, msg)`
unfoldable pub signal_error : ErrorCore → Fault → ErrorCore × List Effect
unfolding signal_type legacy_type make_error_code
signal_error c f =
    let shown : List Effect =
      if c.has_display then show (make_error_code f.kind f.place f.sub) ∷ [] else [] in
    let (c', rest) = signal_type c (legacy_type f.kind) in (c', shown ++ rest)

unfoldable pub drain_pending_blink : ErrorCore → ErrorCore × List Effect
unfolding blink_pattern
drain_pending_blink c =
    if c.pending_blink
    then (record c { pending_blink = false }, blink_pattern c c.pending_blink_type)
    else (c, [])

-- esp_reset_reason(): the three expected reasons, and the rest.
pub data ResetReason : Type 0 where
  power_on software external other_reset : ResetReason

-- `ErrorCore::init`
unfoldable pub init : ErrorCore → Bool → Bool → Bool → ResetReason → ErrorCore × List Effect
unfolding signal_error
init c led ready display reason =
    let c' : ErrorCore = record c {
      has_error_led = led;
      led_ready = ready;
      has_display = display;
      initialized = led;
    } in
    elim reason [
      | other_reset ↦ signal_error c' (fault ErrorTypeDigit.hardware ModuleDigit.core 1)
      | _ ↦ (c', [])
    ]
