-- ===== src/Config.antt =====
-- main/project_config.h: the global limits, by the names that they have there.
use planetopia_nodes.Shared.{ℕ, Bool, true, false, List, [], ◌∷◌, Bytes}

abbrev pub master_beacon_interval_ms : ℕ
master_beacon_interval_ms = 3000

abbrev pub stale_master_threshold_ms : ℕ
stale_master_threshold_ms = 9000

abbrev pub relay_jitter_max_ms : ℕ
relay_jitter_max_ms = 64

abbrev pub max_hops : ℕ
max_hops = 10

abbrev pub stale_peer_threshold_ms : ℕ
stale_peer_threshold_ms = 8000

abbrev pub health_report_interval_ms : ℕ
health_report_interval_ms = 30000

abbrev pub dev_mode : Bool
dev_mode = false

abbrev pub default_peers : List Bytes
default_peers =
    (0xAA ∷ 0xBB ∷ 0xCC ∷ 0xDD ∷ 0xEE ∷ 0x01 ∷ [])
    ∷ (0xAA ∷ 0xBB ∷ 0xCC ∷ 0xDD ∷ 0xEE ∷ 0x02 ∷ [])
    ∷ []

abbrev pub default_mesh_key : Bytes
default_mesh_key =
    0x12 ∷ 0x34 ∷ 0x56 ∷ 0x78 ∷ 0x9A ∷ 0xBC ∷ 0xDE ∷ 0xF0 ∷ 0x11 ∷ 0x22 ∷ 0x33 ∷ 0x44 ∷ 0x55 ∷ 0x66
    ∷ 0x77 ∷ 0x88 ∷ []

-- TX_POWER_VALUES, in units of 0.25 dBm.
abbrev pub tx_power_values : List ℕ
tx_power_values = 8 ∷ 56 ∷ 80 ∷ []

abbrev pub default_dev_master : Bool
default_dev_master = true

abbrev pub dual_master_mode : Bool
dual_master_mode = false

abbrev pub red_led_pin : ℕ
red_led_pin = 33

abbrev pub green_led_pin : ℕ
green_led_pin = 26

abbrev pub config_button_pin : ℕ
config_button_pin = 32

abbrev pub reset_button_pin : ℕ
reset_button_pin = 25

abbrev pub sevseg_data_pin : ℕ
sevseg_data_pin = 23

abbrev pub sevseg_clk_pin : ℕ
sevseg_clk_pin = 22

abbrev pub enable_sevseg_display : Bool
enable_sevseg_display = true

-- The length of DEFAULT_PEERS.
abbrev pub num_default_peers : ℕ
num_default_peers = 2
