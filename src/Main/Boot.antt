-- ===== src/Main/Boot.antt =====
-- main.ino: setup, from the reset reason to the role of the node. Log output, the printing of the public
-- key, the radio's power saving, the CPU clock and the watchdog's timer are left out.
use planetopia_nodes.Shared.{
  ℕ, ◌+◌, ◌%◌, Bool, true, false, not, ◌&&◌, ◌||◌, Option, none, some, List, [], ◌∷◌, ◌++◌, leb,
  if◌then◌else◌, Bytes,
}
use planetopia_nodes.Config
use planetopia_nodes.Errors.Core.{ErrorCore, fresh, ResetReason, other_reset}
use planetopia_nodes.Errors.Core
use planetopia_nodes.Errors.Reporting
use planetopia_nodes.Eeprom.Rom.{Rom}
use planetopia_nodes.Eeprom.Manager.{
  Manager, set_dev_mode, load_dev_flag, load_master_flag, save_reboot_reason, load_reboot_count,
  save_reboot_count,
}
use planetopia_nodes.Eeprom.Manager
use planetopia_nodes.Eeprom.Records.{has_peers, save_peer_list}
use planetopia_nodes.Eeprom.Init
use planetopia_nodes.Adapter.Types.{AdapterType, serial_adapter}
use planetopia_nodes.Adapter.Factory.{
  default_pin, initialize_defaults_if_unset, create_adapter, create_from_eeprom, Created,
}
use planetopia_nodes.Adapter.Pir.{new_sensor}
use planetopia_nodes.Adapter.Pir
use planetopia_nodes.Mesh.Types.{Mesh, Env}
use planetopia_nodes.Mesh.Startup.{Radio}
use planetopia_nodes.Mesh.Startup
use planetopia_nodes.Serial.Frames.{new_framer}
use planetopia_nodes.Hardware.Pins.{is_valid_input_pin, is_valid_output_pin}
use planetopia_nodes.Main.Buttons.{released}
use planetopia_nodes.Main.App.{Device, pir, serial, App}

-- esp_reset_reason(): the reasons that the firmware tells apart.
pub data Cause : Type 0 where
  power_on software external watchdog other : Cause

-- What setup finds outside: the reset reason and its number, the result of EEPROM.begin, whether the
-- display acknowledges what setup writes to it, the bytes that stand behind DEFAULT_PEERS in memory, the start
-- value of the mesh key, and the surroundings of Mesh::init.
pub record Board : Type 0 where
  pub cause : Cause
  pub reason : ℕ
  pub begin_ok : Bool
  pub display_acks : Bool
  pub behind_peers : Bytes
  pub mesh_key : Bytes
  pub env : Env
  pub radio : Radio

-- How setup ends: in the halt of a watchdog loop, in the halt without a red LED, in ESP.restart, in the
-- endless loop of err::fatal, or with a running node.
pub data Outcome : Type 0 where
  halts_watchdog halts_no_led restarts hangs : Manager → Outcome
  runs : App → Outcome

abbrev pub is_watchdog : Cause → Bool
is_watchdog Cause.watchdog = true
is_watchdog _ = false

abbrev core_reason : Cause → ResetReason
core_reason Cause.power_on = ResetReason.power_on
core_reason Cause.software = ResetReason.software
core_reason Cause.external = ResetReason.external
core_reason _ = other_reset

-- The block on the reset reason: whether the node is to halt, and the manager. The count is a uint8_t.
unfoldable pub record_reset : Board → Manager → Bool × Manager
record_reset b m =
    let m₁ = save_reboot_reason m b.reason in
    if is_watchdog b.cause
    then (let count = (load_reboot_count m₁ + 1) % 256 in (leb 5 count, save_reboot_count m₁ count))
    else (false, save_reboot_count m₁ 0)

-- The pins of the LED and the buttons that setup cannot do without, behind the red LED.
abbrev pub pins_ok : Bool
pins_ok =
    is_valid_output_pin Config.green_led_pin
    && is_valid_input_pin Config.config_button_pin
    && is_valid_input_pin Config.reset_button_pin

-- SevenSegDisplay::init comes before that of ErrorCore: on valid pins it writes to the display, and a
-- missed acknowledge is a HARDWARE error, which restarts the chip.
abbrev pub display_fails : Board → Bool
display_fails b =
    Config.enable_sevseg_display
    && is_valid_output_pin Config.sevseg_data_pin
    && is_valid_output_pin Config.sevseg_clk_pin
    && not b.display_acks

-- ErrorCore behind its init, and whether that has restarted the chip.
unfoldable pub start_error_core : Board → ErrorCore × Bool
start_error_core b =
    let (c, es) = Core.init fresh true true Config.enable_sevseg_display (core_reason b.cause) in
    (c, Reporting.restarts es)

-- The rows of the array, one behind the other.
unfoldable pub peers_memory : List Bytes → Bytes
peers_memory [] = []
peers_memory (mac ∷ macs) = mac ++ peers_memory macs

-- The part on the developer mode, the default peers and the default adapter.
unfoldable pub write_defaults : Board → Manager → Bool × Manager
write_defaults b m =
    let is_dev = Config.dev_mode || load_dev_flag m in
    let m₁ = set_dev_mode m is_dev in
    let m₂ =
      if not is_dev && not (has_peers m₁)
      then save_peer_list m₁ (peers_memory Config.default_peers ++ b.behind_peers)
          Config.num_default_peers
      else m₁ in
    (is_dev, if not is_dev then initialize_defaults_if_unset is_dev m₂ else m₂)

-- DEFAULT_ADAPTER
abbrev pub default_adapter : AdapterType
default_adapter = serial_adapter

unfoldable pub choose_adapter : Bool → Manager → Created
choose_adapter is_dev m =
    if is_dev
    then create_adapter default_adapter (default_pin default_adapter)
    else create_from_eeprom is_dev m

-- A pin of -1 is 255 in uint8_t.
abbrev pin_byte : Option ℕ → ℕ
pin_byte none = 255
pin_byte (some p) = p % 256

-- The adapter behind its init; `none` where there is none, or where its init fails.
unfoldable pub start_adapter : Created → Option Device
start_adapter (Created.nothing f) = none
start_adapter (Created.serial pin) =
    some (serial (record { framer = new_framer; last_health_ms = 0; last_hops = 0 }))
start_adapter (Created.pir pin) =
    let (ok, s, acts) = Pir.init new_sensor (is_valid_input_pin (pin_byte pin)) in
    if ok then some (pir s) else none

-- The end of setup: the role of the node.
unfoldable pub take_role : Bool → Device → ErrorCore → Mesh → App
take_role is_dev device core mesh = record {
  is_dev_mode = is_dev;
  dev_master_flag = Config.default_dev_master;
  device = device;
  mesh = record mesh {
    is_master = if is_dev then Config.default_dev_master else load_master_flag mesh.eeprom;
  };
  error_core = core;
  startup_blink_done = false;
  last_display_toggle_ms = 0;
  dash_visible = false;
  last_enrollment_broadcast = 0;
  buttons = released;
}

-- setup from the adapter on.
unfoldable pub start_node : Board → ErrorCore → Bool → Manager → Outcome
start_node b core is_dev m = elim (start_adapter (choose_adapter is_dev m)) [
  | none ↦ restarts m
  | some device ↦
      let (ok, power, mesh) =
        Startup.init b.env b.radio (Startup.new Config.dual_master_mode b.mesh_key m) in
      if ok then runs (take_role is_dev device core mesh) else hangs mesh.eeprom
]

-- setup behind the first start of the EEPROM.
unfoldable pub set_up : Board → Manager → Outcome
set_up b m =
    let (halts, m₁) = record_reset b m in
    let (core, restarted) = start_error_core b in
    if halts
    then halts_watchdog m₁
    else if not (is_valid_output_pin Config.red_led_pin)
    then halts_no_led m₁
    else if display_fails b
    then restarts m₁
    else if restarted || not pins_ok
    then restarts m₁
    else (let (is_dev, m₂) = write_defaults b m₁ in start_node b core is_dev m₂)

-- `setup`, over the flash that the node starts from. A failing EEPROM.begin is a MEMORY error, which
-- restarts the chip; the second call of init finds the manager started.
unfoldable pub setup : Board → Rom → Outcome
setup b flash =
    let (m, ok, faults) = Init.init (Manager.new flash) b.begin_ok in
    if ok then set_up b m else restarts m
