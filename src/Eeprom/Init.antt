-- ===== src/Eeprom/Init.antt =====
-- EEPROM_Manager::init: the start of the library, and the migrations between layout versions.
use planetopia_nodes.Shared.{
  ℕ, ◌+◌, Bool, true, false, not, List, [], ◌∷◌, ltb, leb, ◌==◌, if◌then◌else◌,
}
use planetopia_nodes.Errors.Codes.{ErrorTypeDigit, ModuleDigit, Fault, fault}
use planetopia_nodes.Eeprom.Layout
use planetopia_nodes.Eeprom.Rom.{Rom, read, write, commit, fill, copy_two}
use planetopia_nodes.Eeprom.Manager.{Manager}

-- The v1 to v2 step: reboot tracking, keypair, CRC and enrolled flag move; the old places and the
-- peer list are erased.
unfoldable pub migrate_v1 : Rom → Rom
migrate_v1 r =
    let old_reason = read r Layout.v1_reboot_reason in
    let old_count = read r Layout.v1_reboot_count in
    let r₁ = write r Layout.reboot_reason (if old_reason == 0 then 255 else old_reason) in
    let r₂ = write r₁ Layout.reboot_count (if ltb 10 old_count then 0 else old_count) in
    let r₃ =
      copy_two r₂ Layout.v1_private_key Layout.private_key Layout.v1_public_key Layout.public_key
        32 in
    let r₄ = write r₃ Layout.keypair_crc (read r₃ Layout.v1_keypair_crc) in
    let r₅ = write r₄ (Layout.keypair_crc + 1) (read r₄ (Layout.v1_keypair_crc + 1)) in
    let r₆ = write r₅ Layout.enrolled_flag (read r₅ Layout.v1_enrolled_flag) in
    fill (fill r₆ 92 255 72) Layout.peer_list 255 Layout.peer_list_size

-- The v2 to v3 step.
unfoldable pub migrate_v2 : Rom → Rom
migrate_v2 r = fill r Layout.known_master_mac_secondary 255 6

unfoldable pub stamp_version : Rom → Rom
stamp_version r = commit (write r Layout.schema_version Layout.current_schema_version)

-- What init does for the version byte that it read.
unfoldable pub migrate : ℕ → Rom → Rom
migrate stored r =
    if stored == 255
    then stamp_version r
    else if ltb stored Layout.current_schema_version
    then (let r₁ = if stored == 0 then migrate_v1 r else r in
        stamp_version (if leb stored 2 then migrate_v2 r₁ else r₁))
    else (if ltb Layout.current_schema_version stored
        then stamp_version (commit (fill r 0 255 Layout.total_size))
        else r)

-- The check of the reboot tracking bytes at every start.
unfoldable pub validate_reboot : Rom → Rom
validate_reboot r =
    let r₁ = if read r Layout.reboot_reason == 0 then write r Layout.reboot_reason 255 else r in
    let r₂ = if ltb 10 (read r₁ Layout.reboot_count) then write r₁ Layout.reboot_count 0 else r₁ in
    commit r₂

-- `begin_ok` is the result of EEPROM.begin.
unfoldable pub init : Manager → Bool → Manager × Bool × List Fault
init m begin_ok =
    if m.is_initialized
    then (m, true, [])
    else if not begin_ok
    then (m, false, fault ErrorTypeDigit.memory ModuleDigit.eeprom 1 ∷ [])
    else (
      record m {
        is_initialized = true;
        rom = validate_reboot (migrate (read m.rom Layout.schema_version) m.rom);
      },
      true,
      [],
    )
