-- ===== src/Adapter/Types.antt =====
-- `adapter_types` of Adapter.h, and the opcodes of the lattice-protocol submodule.
use planetopia_nodes.Shared.{ℕ, Bool, ◌==◌, if◌then◌else◌}

-- The enum's int32_t may hold any value that a cast puts there: `other` keeps it.
pub data AdapterType : Type 0 where
  unknown_adapter serial_adapter pir_adapter led_adapter relay_adapter : AdapterType
  other : ℕ → AdapterType

abbrev pub raw : AdapterType → ℕ
raw unknown_adapter = 0
raw serial_adapter = 1
raw pir_adapter = 2
raw led_adapter = 3
raw relay_adapter = 4
raw (other n) = n

-- `static_cast<adapter_types>`
unfoldable pub of_raw : ℕ → AdapterType
of_raw n =
    if n == 0
    then unknown_adapter
    else if n == 1
    then serial_adapter
    else if n == 2
    then pir_adapter
    else if n == 3
    then led_adapter
    else if n == 4
    then relay_adapter
    else other n

-- `==` of two enum values.
abbrev pub is_type : AdapterType → AdapterType → Bool
is_type a b = raw a == raw b

-- opcodes.h stands in a submodule: the firmware only compares bytes with these constants.
pub record Opcodes : Type 0 where
  pub health_req : ℕ
  pub health_report : ℕ
  pub node_health : ℕ
  pub node_id_set : ℕ
  pub config_set : ℕ
  pub tx_power_set : ℕ
  pub led_solid : ℕ
  pub led_off : ℕ
  pub led_blink : ℕ
  pub relay_set : ℕ
  pub command_ack : ℕ

-- The values that the comments of Serial_Adapter.h give.
abbrev pub documented_opcodes : Opcodes
documented_opcodes = record {
  health_req = 0xB0;
  health_report = 0xB1;
  node_health = 0xB2;
  node_id_set = 0xC0;
  config_set = 0xC1;
  tx_power_set = 0xC2;
  led_solid = 0xD0;
  led_off = 0xD1;
  led_blink = 0xD2;
  relay_set = 0xD8;
  command_ack = 0xE0;
}
