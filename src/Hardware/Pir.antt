-- ===== src/Hardware/Pir.antt =====
-- Pir.cpp: the input of the motion sensor and its flag.
use planetopia_nodes.Shared.{ℕ, Bool, true, false, not, List, [], ◌∷◌, if◌then◌else◌}
use planetopia_nodes.Hardware.Pins.{Gpio, PinMode, new_gpio, init_input}

pub record Pir : Type 0 where
  pub gpio : Gpio
  pub motion_detected : Bool

-- The pins whose interrupt is set or taken away.
pub data Interrupt : Type 0 where
  attach detach : ℕ → Interrupt

-- The constructor.
abbrev pub new_pir : ℕ → Pir
new_pir pin = record { gpio = new_gpio pin; motion_detected = false }

unfoldable pub init : Pir → Bool × Pir × List PinMode
init p =
    let (ok, g, modes) = init_input p.gpio in
    if not ok
    then (false, record p { gpio = g }, modes)
    else (true, record { gpio = g; motion_detected = false }, modes)

-- `isMotionDetected` is the field.
abbrev pub clear_motion : Pir → Pir
clear_motion p = record p { motion_detected = false }

abbrev pub signal_motion : Pir → Pir
signal_motion p = record p { motion_detected = true }

-- `attachInterrupt`: its result and the call of the driver.
unfoldable pub attach_interrupt : Pir → Bool × List Interrupt
attach_interrupt p = if not p.gpio.initialized then (false, []) else (true, attach p.gpio.pin ∷ [])

unfoldable pub detach_interrupt : Pir → List Interrupt
detach_interrupt p = if not p.gpio.initialized then [] else detach p.gpio.pin ∷ []
