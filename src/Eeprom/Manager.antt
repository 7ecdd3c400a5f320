-- ===== src/Eeprom/Manager.antt =====
-- EEPROM_Manager: its members, the deferred flush, and the saves and loads of single bytes. Each
-- call of millis() is an argument. Log output is left out.
use planetopia_nodes.Shared.{
  ℕ, ◌+◌, ◌-◌, Bool, true, false, not, ◌&&◌, ◌||◌, ltb, ◌==◌, if◌then◌else◌, elapsed,
}
use planetopia_nodes.Eeprom.Layout
use planetopia_nodes.Eeprom.Rom.{Rom, read, write, commit, fill}

pub record Manager : Type 0 where
  pub is_initialized : Bool
  pub is_dev_mode : Bool
  pub dirty : Bool
  pub last_flush_ms : ℕ
  pub rom : Rom

-- The constructor, over what the EEPROM library holds at power-on.
unfoldable pub new : Rom → Manager
new r = record {
  is_initialized = false;
  is_dev_mode = false;
  dirty = false;
  last_flush_ms = 0;
  rom = r;
}

unfoldable pub set_dev_mode : Manager → Bool → Manager
set_dev_mode m d = record m { is_dev_mode = d }

-- `now` and `after` are the readings of millis() before and after the commit.
unfoldable pub flush_if_dirty : Manager → ℕ → ℕ → Manager
flush_if_dirty m now after =
    if not m.dirty
    then m
    else if ltb (elapsed now m.last_flush_ms) Layout.flush_interval_ms
    then m
    else record m { rom = commit m.rom; dirty = false; last_flush_ms = after }

unfoldable pub force_flush : Manager → ℕ → Manager
force_flush m after =
    if not m.dirty then m else record m { rom = commit m.rom; dirty = false; last_flush_ms = after }

-- A write that waits for the periodic flush (`markDirty`), and one that is committed at once.
abbrev pub store_deferred : Manager → Rom → Manager
store_deferred m r = record m { rom = r; dirty = true }

abbrev pub store_now : Manager → Rom → Manager
store_now m r = record m { rom = commit r }

unfoldable pub load_master_flag : Manager → Bool
load_master_flag m = m.is_initialized && (read m.rom Layout.master_flag == 1)

unfoldable pub save_master_flag : Manager → Bool → Manager
save_master_flag m is_master =
    if not m.is_initialized
    then m
    else if m.is_dev_mode
    then m
    else store_deferred m (write m.rom Layout.master_flag (if is_master then 1 else 0))

unfoldable pub load_dev_flag : Manager → Bool
load_dev_flag m = m.is_initialized && (read m.rom Layout.dev_flag == 1)

unfoldable pub save_dev_flag : Manager → Bool → Manager
save_dev_flag m is_dev =
    if not m.is_initialized
    then m
    else if m.is_dev_mode
    then m
    else store_deferred m (write m.rom Layout.dev_flag (if is_dev then 1 else 0))

-- An erased byte reads as adapter type 0.
unfoldable pub load_adapter_type : Manager → ℕ
load_adapter_type m =
    if not m.is_initialized
    then 255
    else let t = read m.rom Layout.adapter_type in if t == 255 then 0 else t

unfoldable pub save_adapter_type : Manager → ℕ → Manager
save_adapter_type m t =
    if not m.is_initialized
    then m
    else if m.is_dev_mode
    then m
    else store_deferred m (write m.rom Layout.adapter_type t)

unfoldable pub load_reboot_count : Manager → ℕ
load_reboot_count m = if not m.is_initialized then 0 else read m.rom Layout.reboot_count

unfoldable pub save_reboot_count : Manager → ℕ → Manager
save_reboot_count m count =
    if not m.is_initialized || m.is_dev_mode
    then m
    else store_deferred m (write m.rom Layout.reboot_count count)

unfoldable pub load_reboot_reason : Manager → ℕ
load_reboot_reason m = if not m.is_initialized then 255 else read m.rom Layout.reboot_reason

unfoldable pub save_reboot_reason : Manager → ℕ → Manager
save_reboot_reason m reason =
    if not m.is_initialized || m.is_dev_mode
    then m
    else store_deferred m (write m.rom Layout.reboot_reason reason)

unfoldable pub load_enrolled_flag : Manager → Bool
load_enrolled_flag m = m.is_initialized && (read m.rom Layout.enrolled_flag == 1)

unfoldable pub save_enrolled_flag : Manager → Bool → Manager
save_enrolled_flag m enrolled =
    if not m.is_initialized || m.is_dev_mode
    then m
    else store_now m (write m.rom Layout.enrolled_flag (if enrolled then 1 else 255))

pub data TxPowerPreset : Type 0 where
  short_range indoor outdoor : TxPowerPreset

abbrev pub preset_byte : TxPowerPreset → ℕ
preset_byte short_range = 0
preset_byte indoor = 1
preset_byte outdoor = 2

-- `static_cast<TxPowerPreset>(val)` behind the test that val is at most 2.
abbrev pub preset_of_byte : ℕ → TxPowerPreset
preset_of_byte b = if b == 0 then short_range else if b == 1 then indoor else outdoor

unfoldable pub load_tx_power_preset : Manager → TxPowerPreset
load_tx_power_preset m =
    if not m.is_initialized
    then outdoor
    else let val = read m.rom Layout.tx_power_preset in
      if ltb 2 val || (val == 255) then outdoor else preset_of_byte val

unfoldable pub save_tx_power_preset : Manager → TxPowerPreset → Manager
save_tx_power_preset m preset =
    if not m.is_initialized || m.is_dev_mode
    then m
    else store_now m (write m.rom Layout.tx_power_preset (preset_byte preset))

unfoldable pub load_node_id : Manager → ℕ
load_node_id m =
    if not m.is_initialized
    then 0
    else let raw = read m.rom Layout.node_id in if raw == 255 then 0 else raw

unfoldable pub save_node_id : Manager → ℕ → Manager
save_node_id m node_id =
    if not m.is_initialized then m else store_deferred m (write m.rom Layout.node_id node_id)

unfoldable pub clear_all : Manager → Manager
clear_all m = if not m.is_initialized then m else store_now m (fill m.rom 0 255 Layout.total_size)

abbrev pub is_address_valid : ℕ → Bool
is_address_valid a = ltb a Layout.total_size

unfoldable pub clear_range : Manager → ℕ → ℕ → Manager
clear_range m start end =
    if not m.is_initialized
    then m
    else if not (is_address_valid start) || not (is_address_valid end) || ltb end start
    then m
    else store_now m (fill m.rom start 255 (end + 1 - start))
