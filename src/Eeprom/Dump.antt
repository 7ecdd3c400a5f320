-- ===== src/Eeprom/Dump.antt =====
-- EEPROM_Manager.cpp: dumpEEPROM and printAddress, over the level of the logger.
use planetopia_nodes.Shared.{
  ℕ, zero, suc, ◌+◌, ◌%◌, Bool, not, ◌&&◌, ◌||◌, [], ◌++◌, ltb, leb, if◌then◌else◌,
}
use planetopia_nodes.Log.Text.{Text, text, hex, decimal}
use planetopia_nodes.Log.Logger.{LogLevel, log_debug, log_info, log_error, logln}
use planetopia_nodes.Eeprom.Layout
use planetopia_nodes.Eeprom.Rom.{Rom, read}
use planetopia_nodes.Eeprom.Manager.{Manager}

-- The range of the keypair and its CRC.
abbrev pub is_key_address : ℕ → Bool
is_key_address x = leb Layout.private_key x && leb x (Layout.keypair_crc + 1)

-- Two digits and a space.
abbrev pub cell_text : ℕ → Text
cell_text b = (if ltb b 16 then text "0" else []) ++ hex b ++ text " "

-- The inner loop, over the cells from `x` on.
unfoldable pub dump_cells : Rom → ℕ → ℕ → Text
dump_cells r x zero = []
dump_cells r x (suc n) =
    let rest = dump_cells r (x + 1) n in
    if not (ltb x 512)
    then []
    else if is_key_address x
    then text "XX " ++ rest
    else cell_text (read r x) ++ rest

abbrev pub dump_line : LogLevel → Rom → ℕ → Text
dump_line level r x =
    logln level (text "EEPROM") (hex x ++ text ": " ++ dump_cells r x 16) log_debug

-- The outer loop; 32 lines of 16 cells reach the end.
unfoldable pub dump_lines : LogLevel → Rom → ℕ → ℕ → Text
dump_lines level r x zero = []
dump_lines level r x (suc n) =
    let rest = dump_lines level r (x + 16) n in
    if ltb x 512 then dump_line level r x ++ rest else []

-- `ensureInitialized`, where it fails.
abbrev pub not_initialized : LogLevel → Text
not_initialized level = logln level (text "EEPROM") (text "EEPROM not initialized") log_error

unfoldable pub dump_eeprom : LogLevel → Manager → Text
dump_eeprom level m =
    if not m.is_initialized
    then not_initialized level
    else logln level (text "EEPROM") (text "=== EEPROM Dump ===") log_info
      ++ dump_lines level m.rom 0 32

-- `isAddressValid`, of a uint16_t.
abbrev is_address_valid : ℕ → Bool
is_address_valid x = ltb (x % 65536) 512

-- The loop of printAddress.
unfoldable pub print_cells : Rom → ℕ → ℕ → Text
print_cells r x zero = []
print_cells r x (suc n) = cell_text (read r (x % 65536)) ++ print_cells r (x + 1) n

unfoldable pub print_address : LogLevel → Manager → ℕ → ℕ → Text
print_address level m address size =
    if not m.is_initialized
    then not_initialized level
    else if not (is_address_valid address) || not (is_address_valid (address + size + 65535))
    then logln level (text "EEPROM") (text "Invalid address range for print") log_error
    else logln level (text "EEPROM")
        (text "Addr " ++ decimal address ++ text ": " ++ print_cells m.rom address size) log_debug
