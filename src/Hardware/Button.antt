-- ===== src/Hardware/Button.antt =====
-- Button.cpp: the start of the pin, the majority vote over three reads, and the wait for a hold. The
-- levels that digitalRead gives and the readings of millis() are arguments.
use planetopia_nodes.Shared.{
  ℕ, ◌+◌, Bool, true, false, not, Option, none, some, List, [], ◌∷◌, leb, if◌then◌else◌, elapsed,
}
use planetopia_nodes.Hardware.Pins.{Gpio, PinMode, input_pulldown, is_valid_input_pin}

-- `Button::init` on the ESP32.
unfoldable pub init : Gpio → Bool × Gpio × List PinMode
init g =
    if not (is_valid_input_pin g.pin)
    then (false, g, [])
    else (true, record g { initialized = true }, input_pulldown ∷ [])

unfoldable pub high_count : List Bool → ℕ
high_count [] = 0
high_count (high ∷ reads) = if high then high_count reads + 1 else high_count reads

-- `isPressed`, over the levels of the three reads.
unfoldable pub is_pressed : Bool → Bool → Bool → Bool
unfolding high_count
is_pressed a b c = leb 2 (high_count (a ∷ b ∷ c ∷ []))

-- The loop of waitForHold, over what each round finds: the answer of isPressed, and the reading of
-- millis() behind it. `none` where the button is still held at the end of the list.
unfoldable pub hold_loop : ℕ → ℕ → List (Bool × ℕ) → Option Bool
hold_loop start ms [] = none
hold_loop start ms ((pressed, now) ∷ rs) =
    let rest = hold_loop start ms rs in
    if not pressed then some false else if leb ms (elapsed now start) then some true else rest

-- `waitForHold`
unfoldable pub wait_for_hold : ℕ → ℕ → Bool → List (Bool × ℕ) → Option Bool
unfolding hold_loop
wait_for_hold start ms pressed rs = if not pressed then some false else hold_loop start ms rs
