-- ===== src/Hardware/Pins.antt =====
-- GpioInput.cpp and GpioOutput.cpp: the pins that may be used, and the start of a pin.
use planetopia_nodes.Shared.{ℕ, Bool, true, false, not, ◌||◌, List, [], ◌∷◌, ◌==◌, if◌then◌else◌}

unfoldable pub is_one_of : ℕ → List ℕ → Bool
is_one_of x [] = false
is_one_of x (y ∷ ys) = (x == y) || is_one_of x ys

-- The cases of the switch of isValidInputPin.
abbrev pub input_pins : List ℕ
input_pins =
    0 ∷ 2 ∷ 4 ∷ 5 ∷ 12 ∷ 13 ∷ 14 ∷ 15 ∷ 16 ∷ 17 ∷ 18 ∷ 19 ∷ 21 ∷ 22 ∷ 23 ∷ 25 ∷ 26 ∷ 27 ∷ 32 ∷ 33
    ∷ 34 ∷ 35 ∷ 36 ∷ 39 ∷ []

-- Those of isValidOutputPin.
abbrev pub output_pins : List ℕ
output_pins =
    2 ∷ 4 ∷ 5 ∷ 12 ∷ 13 ∷ 14 ∷ 15 ∷ 16 ∷ 17 ∷ 18 ∷ 19 ∷ 21 ∷ 22 ∷ 23 ∷ 25 ∷ 26 ∷ 27 ∷ 32 ∷ 33 ∷ []

unfoldable pub is_valid_input_pin : ℕ → Bool
unfolding is_one_of
is_valid_input_pin pin = is_one_of pin input_pins

unfoldable pub is_valid_output_pin : ℕ → Bool
unfolding is_one_of
is_valid_output_pin pin = is_one_of pin output_pins

-- GpioInput and GpioOutput.
pub record Gpio : Type 0 where
  pub pin : ℕ
  pub initialized : Bool

pub data PinMode : Type 0 where
  output input_pullup input_pulldown : PinMode

abbrev pub new_gpio : ℕ → Gpio
new_gpio pin = record { pin = pin; initialized = false }

-- `init` of either class, with the mode that it sets.
unfoldable pub init_input : Gpio → Bool × Gpio × List PinMode
init_input g =
    if not (is_valid_input_pin g.pin)
    then (false, g, [])
    else (true, record g { initialized = true }, input_pullup ∷ [])

unfoldable pub init_output : Gpio → Bool × Gpio × List PinMode
init_output g =
    if not (is_valid_output_pin g.pin)
    then (false, g, [])
    else (true, record g { initialized = true }, output ∷ [])
