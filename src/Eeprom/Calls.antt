-- ===== src/Eeprom/Calls.antt =====
-- The calls of EEPROM_Manager that change its state, as one step function.
use planetopia_nodes.Shared.{ℕ, Bool, List, [], ◌∷◌, Bytes}
use planetopia_nodes.Eeprom.Manager.{
  Manager, TxPowerPreset, set_dev_mode, flush_if_dirty, force_flush, save_master_flag,
  save_dev_flag, save_adapter_type, save_reboot_count, save_reboot_reason, save_enrolled_flag,
  save_tx_power_preset, save_node_id, clear_all, clear_range,
}
use planetopia_nodes.Eeprom.Records.{
  save_mesh_key, save_peer_list, clear_peer_list, save_boot_epoch, save_known_master_mac,
  save_known_master_mac_secondary, clear_known_master_mac, clear_known_master_mac_secondary,
}
use planetopia_nodes.Eeprom.Keypair.{save_keypair}
use planetopia_nodes.Eeprom.Init.{init}

-- Every call of EEPROM_Manager that changes its state.
pub data Op : Type 0 where
  inits : Bool → Op
  sets_dev_mode : Bool → Op
  flushes_if_dirty : ℕ → ℕ → Op
  flushes : ℕ → Op
  saves_master_flag saves_dev_flag saves_enrolled_flag : Bool → Op
  saves_adapter_type saves_reboot_count saves_reboot_reason saves_node_id saves_boot_epoch : ℕ → Op
  saves_tx_power : TxPowerPreset → Op
  saves_mesh_key : Bytes → ℕ → Op
  saves_peer_list : Bytes → ℕ → Op
  saves_keypair : Bytes → Bytes → Op
  saves_known_master_mac saves_known_master_mac_secondary : Bytes → Op
  clears_known_master_mac clears_known_master_mac_secondary : Op
  clears_peer_list clears_all : Op
  clears_range : ℕ → ℕ → Op

unfoldable pub step : Manager → Op → Manager
step m (inits ok) = (init m ok).0
step m (sets_dev_mode d) = set_dev_mode m d
step m (flushes_if_dirty now after) = flush_if_dirty m now after
step m (flushes after) = force_flush m after
step m (saves_master_flag b) = save_master_flag m b
step m (saves_dev_flag b) = save_dev_flag m b
step m (saves_enrolled_flag b) = save_enrolled_flag m b
step m (saves_adapter_type t) = save_adapter_type m t
step m (saves_reboot_count n) = save_reboot_count m n
step m (saves_reboot_reason n) = save_reboot_reason m n
step m (saves_node_id n) = save_node_id m n
step m (saves_boot_epoch e) = save_boot_epoch m e
step m (saves_tx_power p) = save_tx_power_preset m p
step m (saves_mesh_key k n) = save_mesh_key m k n
step m (saves_peer_list rs n) = save_peer_list m rs n
step m (saves_keypair a b) = save_keypair m a b
step m (saves_known_master_mac mac) = save_known_master_mac m mac
step m (saves_known_master_mac_secondary mac) = save_known_master_mac_secondary m mac
step m clears_known_master_mac = clear_known_master_mac m
step m clears_known_master_mac_secondary = clear_known_master_mac_secondary m
step m clears_peer_list = clear_peer_list m
step m clears_all = clear_all m
step m (clears_range a b) = clear_range m a b

unfoldable pub run : Manager → List Op → Manager
run m [] = m
run m (o ∷ os) = run (step m o) os
