-- ===== src/Eeprom/Layout.antt =====
-- EEPROM_ADDRESSES and EEPROM_SIZES of EEPROM_Manager.h, by the names that they have there.
use planetopia_nodes.Shared.{ℕ}

abbrev pub master_flag : ℕ
master_flag = 0

abbrev pub dev_flag : ℕ
dev_flag = 1

abbrev pub adapter_type : ℕ
adapter_type = 8

abbrev pub mesh_key : ℕ
mesh_key = 16

abbrev pub peer_list : ℕ
peer_list = 32

abbrev pub reboot_reason : ℕ
reboot_reason = 412

abbrev pub reboot_count : ℕ
reboot_count = 413

abbrev pub private_key : ℕ
private_key = 417

abbrev pub public_key : ℕ
public_key = 449

abbrev pub keypair_crc : ℕ
keypair_crc = 481

abbrev pub enrolled_flag : ℕ
enrolled_flag = 483

abbrev pub boot_epoch : ℕ
boot_epoch = 484

abbrev pub known_master_mac : ℕ
known_master_mac = 488

abbrev pub schema_version : ℕ
schema_version = 494

abbrev pub tx_power_preset : ℕ
tx_power_preset = 495

abbrev pub node_id : ℕ
node_id = 496

abbrev pub known_master_mac_secondary : ℕ
known_master_mac_secondary = 497

abbrev pub v1_reboot_reason : ℕ
v1_reboot_reason = 92

abbrev pub v1_reboot_count : ℕ
v1_reboot_count = 93

abbrev pub v1_private_key : ℕ
v1_private_key = 97

abbrev pub v1_public_key : ℕ
v1_public_key = 129

abbrev pub v1_keypair_crc : ℕ
v1_keypair_crc = 161

abbrev pub v1_enrolled_flag : ℕ
v1_enrolled_flag = 163

abbrev pub total_size : ℕ
total_size = 512

abbrev pub mesh_key_size : ℕ
mesh_key_size = 16

abbrev pub max_peers : ℕ
max_peers = 10

abbrev pub peer_record_size : ℕ
peer_record_size = 38

abbrev pub peer_list_size : ℕ
peer_list_size = 380

abbrev pub current_schema_version : ℕ
current_schema_version = 3

abbrev pub flush_interval_ms : ℕ
flush_interval_ms = 5000
