-- ===== src/Mesh/Beacons.antt =====
-- Mesh.cpp: a master's beacon at a node, from the trust check to the deferred relay, and the timeout
-- of the master. One reading of millis() serves the whole method.
use planetopia_nodes.Shared.{
  ℕ, ◌+◌, ◌%◌, Bool, true, not, ◌&&◌, ◌||◌, Option, none, some, List, [], ◌∷◌, ltb, leb, ◌==◌,
  if◌then◌else◌, u32, elapsed, get_or, bytes_eq,
}
use planetopia_nodes.Config
use planetopia_nodes.Errors.Codes.{ErrorTypeDigit, ModuleDigit, fault}
use planetopia_nodes.Eeprom.Records.{save_known_master_mac, save_known_master_mac_secondary}
use planetopia_nodes.Mesh.Types.{
  Mac, MeshMessage, MasterInfo, Tofu, Mesh, Effect, fails, Env, zero_mac,
}

abbrev pub from_primary : Tofu → Mac → Bool
from_primary t mac = t.has_master_mac && bytes_eq mac t.known_master_mac

abbrev pub from_secondary : Tofu → Mac → Bool
from_secondary t mac =
    t.dual_master_mode && t.has_master_mac_secondary && bytes_eq mac t.known_master_mac_secondary

abbrev pub is_fresh_master : Env → Mesh → Bool
is_fresh_master env m =
    ltb (elapsed env.now m.last_master_beacon_received_ms) Config.stale_master_threshold_ms

abbrev learn_primary : Mesh → Mac → Mesh
learn_primary m mac =
    let t = m.tofu in
    record m {
      tofu = record t { known_master_mac = mac; has_master_mac = true };
      eeprom = save_known_master_mac m.eeprom mac;
    }

abbrev learn_secondary : Mesh → Mac → Mesh
learn_secondary m mac =
    let t = m.tofu in
    record m {
      tofu = record t { known_master_mac_secondary = mac; has_master_mac_secondary = true };
      eeprom = save_known_master_mac_secondary m.eeprom mac;
    }

-- The block "TOFU master MAC enforcement"; `none` where the beacon is rejected.
unfoldable pub check_tofu : Env → Mesh → Mac → Option Mesh
check_tofu env m origin =
    let t = m.tofu in
    if not t.has_master_mac
    then some (learn_primary m origin)
    else if from_primary t origin || from_secondary t origin
    then some m
    else if t.dual_master_mode && not t.has_master_mac_secondary
    then some (learn_secondary m origin)
    else (if is_fresh_master env m
        then none
        else some (record m {
          tofu = record t { known_master_mac = origin };
          eeprom = save_known_master_mac m.eeprom origin;
        }))

abbrev first_byte : Mac → ℕ
first_byte mac = get_or mac 0 0

-- The report of a second master.
unfoldable pub check_split : Mesh → Mac → List Effect
check_split m origin =
    if not (bytes_eq m.last_seen_master_mac origin)
      && not (first_byte m.last_seen_master_mac == 0)
      && not m.tofu.dual_master_mode
    then fails (fault ErrorTypeDigit.config ModuleDigit.mesh 7) ∷ []
    else []

-- newDistance, in uint8_t.
abbrev pub new_distance : MeshMessage → ℕ
new_distance msg = (msg.hop_count + 1) % 256

unfoldable pub update_route : MasterInfo → MeshMessage → MasterInfo
update_route r msg =
    if (r.distance == 255) || not (bytes_eq r.mac msg.origin) || ltb (new_distance msg) r.distance
    then record { mac = msg.origin; distance = new_distance msg; next_hop = msg.last_hop }
    else r

-- The message is newer than the last one that was relayed.
unfoldable pub is_newer : Mesh → MeshMessage → Bool
is_newer m msg =
    ltb m.last_relayed_epoch msg.epoch_num
    || ((msg.epoch_num == m.last_relayed_epoch) && ltb m.last_relayed_seq_num msg.seq_num)

-- The block under `if (!isMaster)`.
unfoldable pub schedule_relay : Env → Mesh → MeshMessage → Mesh
schedule_relay env m msg = if m.is_master || not (is_newer m msg) then m else record m {
  last_relayed_epoch = msg.epoch_num;
  last_relayed_seq_num = msg.seq_num;
  relay = record {
    pending = true;
    msg = record msg { hop_count = new_distance msg; last_hop = m.device_mac };
    due = (env.now + 10 + env.random % Config.relay_jitter_max_ms % 256) % u32;
  };
}

unfoldable pub accept_beacon : Env → Mesh → MeshMessage → Mesh
accept_beacon env m msg =
    schedule_relay env
      (record m {
        last_seen_master_mac = msg.origin;
        last_master_beacon_received_ms = env.now;
        current_master = update_route m.current_master msg;
      })
      msg

unfoldable pub process_master_beacon : Env → Mesh → MeshMessage → Mesh × List Effect
process_master_beacon env m msg =
    if leb Config.max_hops msg.hop_count then (m, []) else elim (check_tofu env m msg.origin) [
      | none ↦ (m, [])
      | some m' ↦ (accept_beacon env m' msg, check_split m' msg.origin)
    ]

abbrev pub no_master : MasterInfo
no_master = record { mac = zero_mac; distance = 255; next_hop = zero_mac }

unfoldable pub check_master_timeout : Mesh → ℕ → Mesh
check_master_timeout m now =
    if m.is_master
    then m
    else if m.current_master.distance == 255
    then m
    else if ltb Config.stale_master_threshold_ms (elapsed now m.last_master_beacon_received_ms)
    then record m {
      current_master = no_master;
      last_seen_master_mac = zero_mac;
      last_master_beacon_received_ms = 0;
    }
    else m
