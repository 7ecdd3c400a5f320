-- ===== src/Hardware/Led.antt =====
-- Led.cpp: the state of an LED, its switching and its blinking.
use planetopia_nodes.Shared.{
  ℕ, zero, suc, Bool, true, false, not, List, [], ◌∷◌, ◌++◌, ◌==◌, if◌then◌else◌,
}
use planetopia_nodes.Errors.Codes.{ErrorTypeDigit, ModuleDigit, Fault, fault}
use planetopia_nodes.Hardware.Pins.{Gpio, is_valid_output_pin}

-- `is_system_error` tells whether the LED is the one of setSystemErrorLed, which reports no fault.
pub record Led : Type 0 where
  pub gpio : Gpio
  pub is_on : Bool
  pub is_system_error : Bool

pub data Effect : Type 0 where
  drives : Bool → Effect
  delays : ℕ → Effect
  fails : Fault → Effect

abbrev refuse : Led → ErrorTypeDigit → ℕ → Bool × Led × List Effect
refuse l kind sub =
    (false, l, if l.is_system_error then [] else fails (fault kind ModuleDigit.hw sub) ∷ [])

unfoldable pub init : Led → Bool × Led × List Effect
init l = if not (is_valid_output_pin l.gpio.pin) then refuse l ErrorTypeDigit.config 1 else (
  true,
  record l { gpio = record { pin = l.gpio.pin; initialized = true }; is_on = false },
  drives false ∷ [],
)

unfoldable pub set_state : Led → Bool → Led × List Effect
set_state l state =
    if (if l.is_on then state else not state)
    then (l, [])
    else (record l { is_on = state }, drives state ∷ [])

unfoldable pub on : Led → Bool × Led × List Effect
on l =
    if not l.gpio.initialized
    then refuse l ErrorTypeDigit.hardware 2
    else (let (l', es) = set_state l true in (true, l', es))

unfoldable pub off : Led → Bool × Led × List Effect
off l =
    if not l.gpio.initialized
    then refuse l ErrorTypeDigit.hardware 3
    else (let (l', es) = set_state l false in (true, l', es))

unfoldable pub toggle : Led → Bool × Led × List Effect
toggle l =
    if not l.gpio.initialized
    then refuse l ErrorTypeDigit.hardware 4
    else (let (l', es) = set_state l (not l.is_on) in (true, l', es))

-- The loop of blink, over the rounds that are left: the last one has no pause behind it.
unfoldable pub blink_loop : ℕ → ℕ → ℕ → Led → Led × List Effect
blink_loop zero on_ms off_ms l = (l, [])
blink_loop (suc left) on_ms off_ms l =
    let (l₁, es₁) = set_state l true in
    let (l₂, es₂) = set_state l₁ false in
    let (l₃, es₃) = blink_loop left on_ms off_ms l₂ in
    let pause = (if left == 0 then [] else delays off_ms ∷ []) in
    (l₃, es₁ ++ (delays on_ms ∷ (es₂ ++ (pause ++ es₃))))

unfoldable pub blink : Led → ℕ → ℕ → ℕ → Bool × Led × List Effect
blink l times on_ms off_ms =
    if not l.gpio.initialized
    then refuse l ErrorTypeDigit.hardware 5
    else (let (l', es) = blink_loop times on_ms off_ms l in (true, l', es))
