-- ===== src/Main/App.antt =====
-- main.ino: the global variables, with the static ones of the loop.
use planetopia_nodes.Shared.{ℕ, Bool}
use planetopia_nodes.Errors.Core.{ErrorCore}
use planetopia_nodes.Adapter.Types.{AdapterType, serial_adapter, pir_adapter}
use planetopia_nodes.Adapter.Pir.{Sensor}
use planetopia_nodes.Mesh.Types.{Mesh}
use planetopia_nodes.Serial.Loop.{Port}
use planetopia_nodes.Main.Buttons.{Buttons}

-- The adapter that the unique_ptr holds.
pub data Device : Type 0 where
  pir : Sensor → Device
  serial : Port → Device

abbrev pub device_type : Device → AdapterType
device_type (pir s) = pir_adapter
device_type (serial p) = serial_adapter

-- `mesh.eeprom` is the one EEPROM_Manager of the program.
pub record App : Type 0 where
  pub is_dev_mode : Bool  -- isDevMode
  pub dev_master_flag : Bool
  pub device : Device  -- adapter
  pub mesh : Mesh
  pub error_core : ErrorCore
  pub startup_blink_done : Bool
  pub last_display_toggle_ms : ℕ
  pub dash_visible : Bool
  pub last_enrollment_broadcast : ℕ
  pub buttons : Buttons
