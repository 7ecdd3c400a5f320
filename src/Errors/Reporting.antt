-- ===== src/Errors/Reporting.antt =====
-- ErrorCore.cpp over its kinds of error and its contexts: codes, restarts, and the deferred blinking.
use planetopia_nodes.Shared.{ℕ, ◌/◌, ◌%◌, ◌≡◌, Bool, true, false, List, [], ◌∷◌, arith}
use planetopia_nodes.Errors.Codes.{
  ErrorTypeDigit, ModuleDigit, type_digit, module_digit, make_error_code, Fault,
}
use planetopia_nodes.Errors.Core.{
  ErrorCore, Effect, blink, restart, legacy_type, blinks, signal_error, drain_pending_blink,
}

-- The three decimal digits of a code are the type, the module and the sub-code modulo 10.
pub make_error_code_digits :
    (t : ErrorTypeDigit) (m : ModuleDigit) (sub : ℕ)
    → (make_error_code t m sub / 100 ≡ type_digit t)
      × (make_error_code t m sub / 10 % 10 ≡ module_digit m)
      × (make_error_code t m sub % 10 ≡ sub % 10)
unfolding make_error_code
make_error_code_digits t m sub = ground arith

unfoldable pub restarts : List Effect → Bool
restarts [] = false
restarts (restart ∷ es) = true
restarts (_ ∷ es) = restarts es

unfoldable pub blinked : List Effect → List ℕ
blinked [] = []
blinked (blink n ∷ es) = n ∷ blinked es
blinked (_ ∷ es) = blinked es

-- The kinds of error after which the node does not go on.
unfoldable pub is_grave : ErrorTypeDigit → Bool
is_grave ErrorTypeDigit.memory = true
is_grave ErrorTypeDigit.hardware = true
is_grave _ = false

-- Whatever the state of the reporter, an error restarts the device exactly if its kind is MEMORY or
-- HARDWARE.
pub restarts-signal_error :
    (c : ErrorCore) (f : Fault) → restarts (signal_error c f).1 ≡ is_grave f.kind
unfolding restarts signal_error is_grave
restarts-signal_error c f = ground arith

-- In callback context an error with a set-up LED blinks nothing at once; the next call of
-- drainPendingBlink blinks the pattern of that error once, and the call after it nothing.
pub callback_blink_deferred :
    (c : ErrorCore) (f : Fault)
    → c.in_callback_context ≡ true
    → c.initialized ≡ true
    → c.has_error_led ≡ true
    → c.led_ready ≡ true
    → let c₁ = (signal_error c f).0 in
      let c₂ = (drain_pending_blink c₁).0 in
      (blinked (signal_error c f).1 ≡ [])
      × (blinked (drain_pending_blink c₁).1 ≡ blinks (legacy_type f.kind) ∷ [])
      × (blinked (drain_pending_blink c₂).1 ≡ [])
unfolding blinked signal_error drain_pending_blink
callback_blink_deferred c f h₁ h₂ h₃ h₄ = ground arith
