-- ===== src/Mesh/Startup.antt =====
-- Mesh::Mesh and Mesh::init: what a node starts from, and what it loads. The radio and the key
-- generator are parameters.
use planetopia_nodes.Shared.{
  ℕ, ◌+◌, ◌%◌, Bool, true, false, not, ◌&&◌, ◌||◌, Option, none, some, List, [], ◌∷◌, ◌++◌, map,
  ◌==◌, if◌then◌else◌, u32, get_or, take, replicate, Bytes, all_are,
}
use planetopia_nodes.Config
use planetopia_nodes.Eeprom.Manager.{Manager, load_tx_power_preset, preset_byte}
use planetopia_nodes.Eeprom.Records.{
  load_mesh_key, save_mesh_key, load_boot_epoch, save_boot_epoch, load_known_master_mac,
  load_known_master_mac_secondary,
}
use planetopia_nodes.Eeprom.Keypair.{load_keypair, save_keypair}
use planetopia_nodes.Mesh.Types.{
  Mac, PeerInfo, EspPeer, Mesh, Env, broadcast_mac, zero_mac, zero_message, empty_slot,
}
use planetopia_nodes.Mesh.Peers.{load_peers_from_eeprom, is_peer_exist, register_peer_with_esp_now}
use planetopia_nodes.Mesh.Replay.{empty_cache}
use planetopia_nodes.Mesh.Receive.{recv_queue_size}

-- What init finds outside: a fresh keypair of mbedTLS, the radio's MAC, and whether esp_now_init
-- succeeds.
pub record Radio : Type 0 where
  pub new_keys : Bytes × Bytes
  pub own_mac : Mac
  pub now_ok : Bool

abbrev unset_mac : Mac
unset_mac = replicate 6 255

-- The constructor; meshKey has no initial value, so it is an argument.
unfoldable pub new : Bool → Bytes → Manager → Mesh
new dual_master_mode mesh_key eeprom = record {
  device_mac = zero_mac;
  is_master = false;
  peers = [];
  current_master = record { mac = zero_mac; distance = 255; next_hop = zero_mac };
  last_seen_master_mac = zero_mac;
  last_beacon_millis = 0;
  last_master_beacon_received_ms = 0;
  mesh_key = mesh_key;
  private_key = replicate 32 0;
  public_key = replicate 32 0;
  boot_epoch = 0;
  tx_seq_num = 0;
  replay = empty_cache;
  last_relayed_epoch = 0;
  last_relayed_seq_num = 0;
  relay = record { pending = false; msg = zero_message; due = 0 };
  tofu = record {
    known_master_mac = unset_mac;
    has_master_mac = false;
    known_master_mac_secondary = unset_mac;
    has_master_mac_secondary = false;
    dual_master_mode = dual_master_mode;
  };
  enrollment_relay = record { pending = false; mac = zero_mac; public_key = replicate 32 0 };
  queue = record { slots = replicate recv_queue_size empty_slot; head = 0; tail = 0 };
  driver = [];
  eeprom = eeprom;
}

-- Each byte is 0xFF or 0x00.
unfoldable pub is_unset_key : Bytes → Bool
is_unset_key [] = true
is_unset_key (b ∷ bs) = ((b == 255) || (b == 0)) && is_unset_key bs

-- The key in meshKey behind the load and the override.
abbrev pub loaded_mesh_key : Mesh → Bytes
loaded_mesh_key m =
    if Config.dev_mode
    then Config.default_mesh_key
    else elim (load_mesh_key m.eeprom 16) [ none ↦ m.mesh_key | some k ↦ k ]

unfoldable pub load_mesh_key_from_eeprom : Mesh → Mesh
load_mesh_key_from_eeprom m =
    let key = loaded_mesh_key m in
    if is_unset_key key
    then record m {
      mesh_key = Config.default_mesh_key;
      eeprom = save_mesh_key m.eeprom Config.default_mesh_key 16;
    }
    else record m { mesh_key = key }

-- The result of loadKeypair and the two key members after it.
abbrev pub loaded_keypair : Mesh → Bool × Bytes × Bytes
loaded_keypair m = elim (load_keypair m.eeprom) [
  | none ↦ (false, m.private_key, m.public_key)
  | some k ↦ k
]

-- `loadOrGenerateKeypair`, where the generation does not fail.
unfoldable pub load_or_generate_keypair : Radio → Mesh → Mesh
load_or_generate_keypair r m =
    let (ok, priv, pub_key) = loaded_keypair m in
    if ok then record m { private_key = priv; public_key = pub_key } else record m {
      private_key = r.new_keys.0;
      public_key = r.new_keys.1;
      eeprom = save_keypair m.eeprom r.new_keys.0 r.new_keys.1;
    }

abbrev pub with_primary : Mesh → Mesh
with_primary m =
    let t = m.tofu in
    elim (load_known_master_mac m.eeprom) [
      | none ↦ record m { tofu = record t { has_master_mac = false } }
      | some (ok, mac) ↦ record m {
        tofu = record t { has_master_mac = ok; known_master_mac = mac };
      }
    ]

abbrev pub with_secondary : Mesh → Mesh
with_secondary m =
    let t = m.tofu in
    elim (load_known_master_mac_secondary m.eeprom) [
      | none ↦ record m { tofu = record t { has_master_mac_secondary = false } }
      | some (ok, mac) ↦ record m {
        tofu = record t { has_master_mac_secondary = ok; known_master_mac_secondary = mac };
      }
    ]

unfoldable pub load_persistent_state : Radio → Mesh → Mesh
load_persistent_state r m =
    let m' =
      with_primary
        (load_or_generate_keypair r (load_mesh_key_from_eeprom (load_peers_from_eeprom m))) in
    if m'.tofu.dual_master_mode then with_secondary m' else m'

unfoldable pub register_all : Env → List EspPeer → Bytes → List PeerInfo → List EspPeer
register_all env table own_private [] = table
register_all env table own_private (p ∷ ps) =
    register_all env (register_peer_with_esp_now env table p.mac own_private p.public_key)
      own_private ps

unfoldable pub setup_esp_now : Env → Radio → Mesh → Option Mesh
setup_esp_now env r m =
    if not r.now_ok
    then none
    else let table =
        if is_peer_exist m.driver broadcast_mac
        then m.driver
        else m.driver
          ++ (record { addr = broadcast_mac; encrypt = false; lmk = replicate 16 0 } ∷ []) in
      some (record m { driver = register_all env table m.private_key m.peers })

-- `++` on the uint32_t of loadBootEpoch.
abbrev pub next_epoch : Manager → ℕ
next_epoch e = (load_boot_epoch e + 1) % u32

-- `init`: the result, the transmit power set, and the node.
unfoldable pub init : Env → Radio → Mesh → Bool × ℕ × Mesh
init env r m =
    let m₁ = load_persistent_state r m in
    let epoch = next_epoch m₁.eeprom in
    let m₂ = record m₁ {
      eeprom = save_boot_epoch m₁.eeprom epoch;
      boot_epoch = epoch;
      tx_seq_num = 0;
      replay = record { entries = empty_cache.entries; idx = m₁.replay.idx };
      device_mac = r.own_mac;
    } in
    let power = get_or Config.tx_power_values (preset_byte (load_tx_power_preset m₂.eeprom)) 0 in
    elim (setup_esp_now env r m₂) [ none ↦ (false, power, m₂) | some m₃ ↦ (true, power, m₃) ]

-- `generateRandomMeshKey`, over what the sixteen calls of esp_random give; nothing calls it.
unfoldable pub generate_random_mesh_key : List ℕ → Mesh → Mesh
generate_random_mesh_key randoms m = record m { mesh_key = take 16 (map (λ n. n % 256) randoms) }

-- `meshKeyIsSet`
unfoldable pub mesh_key_is_set : Mesh → Bool
mesh_key_is_set m = not (all_are 255 m.mesh_key)
