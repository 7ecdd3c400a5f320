-- ===== src/Main/Buttons.antt =====
-- main.ino: the two buttons of the loop. A press is the answer of Button::isPressed, and each call of
-- millis() in a round is an argument; the blinking and the pauses after an action are left out.
use planetopia_nodes.Shared.{
  ℕ, ◌+◌, ◌%◌, Bool, true, false, not, ◌&&◌, ltb, leb, if◌then◌else◌, u32, elapsed,
}

-- BUTTON_HOLD_TIME_MS
abbrev pub button_hold_time_ms : ℕ
button_hold_time_ms = 5000

-- The static variables of the loop for the buttons.
pub record Buttons : Type 0 where
  pub was_pressed : Bool  -- buttonWasPressed
  pub hold_start : ℕ
  pub reset_was_pressed : Bool  -- resetButtonWasPressed
  pub reset_hold_start : ℕ
  pub confirm_pending : Bool  -- resetConfirmPending
  pub confirm_deadline : ℕ  -- resetConfirmDeadline

abbrev pub released : Buttons
released = record {
  was_pressed = false;
  hold_start = 0;
  reset_was_pressed = false;
  reset_hold_start = 0;
  confirm_pending = false;
  confirm_deadline = 0;
}

-- The block of the config button: whether the hold of five seconds is complete.
unfoldable pub config_button : Buttons → Bool → ℕ → Buttons × Bool
config_button b pressed now =
    if not pressed
    then (record b { was_pressed = false }, false)
    else if not b.was_pressed
    then (record b { was_pressed = true; hold_start = now }, false)
    else if leb button_hold_time_ms (elapsed now b.hold_start)
    then (record b { was_pressed = false }, true)
    else (b, false)

pub data ResetAction : Type 0 where
  nothing arms wipes expires : ResetAction

-- A complete hold of the reset button, `now` the reading of millis() that follows it.
unfoldable pub reset_held : Buttons → ℕ → Buttons × ResetAction
reset_held b now =
    if not b.confirm_pending
    then (record b { confirm_pending = true; confirm_deadline = (now + 3000) % u32 }, arms)
    else if ltb now b.confirm_deadline
    then (record b { confirm_pending = false }, wipes)
    else (b, nothing)

-- The block of the reset button: `now` and `later` are its first and its second reading.
unfoldable pub reset_button : Buttons → Bool → ℕ → ℕ → Buttons × ResetAction
reset_button b pressed now later =
    if not pressed
    then (let b' = record b { reset_was_pressed = false } in
        if b.confirm_pending && ltb b.confirm_deadline now
        then (record b' { confirm_pending = false }, expires)
        else (b', nothing))
    else if not b.reset_was_pressed
    then (record b { reset_was_pressed = true; reset_hold_start = now }, nothing)
    else if leb button_hold_time_ms (elapsed now b.reset_hold_start)
    then reset_held (record b { reset_was_pressed = false }) later
    else (b, nothing)
