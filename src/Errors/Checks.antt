-- ===== src/Errors/Checks.antt =====
-- Error.h: err::fatal, err::check and err::checkEsp. ESP_OK is 0.
use planetopia_nodes.Shared.{ℕ, Bool, true, false, List, [], ◌∷◌, ◌==◌, if◌then◌else◌}
use planetopia_nodes.Errors.Codes.{ErrorType, Fault, legacy_fault}

-- `check`: its result, and the fault that it hands to fail.
unfoldable pub check : Bool → ErrorType → Bool × List Fault
check condition type = if condition then (true, []) else (false, legacy_fault type ∷ [])

unfoldable pub check_esp : ℕ → ErrorType → Bool × List Fault
check_esp status type = if status == 0 then (true, []) else (false, legacy_fault type ∷ [])
