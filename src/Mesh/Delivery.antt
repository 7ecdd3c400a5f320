-- ===== src/Mesh/Delivery.antt =====
-- Mesh.cpp: adapter data, enrollment requests and join acknowledgements at a node.
use planetopia_nodes.Shared.{
  Bool, true, false, not, ◌&&◌, ◌||◌, some, List, [], ◌∷◌, ◌++◌, leb, ◌==◌, if◌then◌else◌, length,
  get_or, take, replicate, Bytes, bytes_eq,
}
use planetopia_nodes.Config
use planetopia_nodes.Adapter.Types.{serial_adapter, unknown_adapter, is_type}
use planetopia_nodes.Eeprom.Layout
use planetopia_nodes.Eeprom.Manager.{save_enrolled_flag}
use planetopia_nodes.Eeprom.Records.{save_known_master_mac}
use planetopia_nodes.Mesh.Types.{
  Mac, adapter_data, join_ack, MeshMessage, Mesh, Effect, sends, delivers, relays_enrollment, Env,
  broadcast_mac, zero_message,
}
use planetopia_nodes.Mesh.Peers.{
  append_peer, is_known, update_peer, save_peers_to_eeprom, del_peer, register_peer_with_esp_now,
}
use planetopia_nodes.Mesh.Sending.{transmit_core, relayed, relay_downlink}

-- The two addresses that a node takes for its own.
abbrev pub is_local : Mesh → MeshMessage → Bool
is_local m msg = bytes_eq msg.target m.device_mac || bytes_eq msg.target broadcast_mac

abbrev pub is_uplink : Mesh → MeshMessage → Bool
is_uplink m msg = m.tofu.has_master_mac && bytes_eq msg.target m.current_master.mac

abbrev pub is_config_set : Env → MeshMessage → Bool
is_config_set env msg =
    is_type msg.data_type serial_adapter && (get_or msg.payload 0 0 == env.opcodes.config_set)

-- The check that a CONFIG_SET comes from the known master.
abbrev pub is_rejected_config : Env → Mesh → MeshMessage → Bool
is_rejected_config env m msg =
    is_config_set env msg
    && m.tofu.has_master_mac
    && not (bytes_eq msg.origin m.tofu.known_master_mac)

-- The part of processAdapterData under "Local delivery".
unfoldable pub deliver : Env → Mesh → MeshMessage → List Effect
deliver env m msg =
    if is_rejected_config env m msg
    then []
    else (if env.has_recv_callback then delivers msg ∷ [] else [])
      ++ (if bytes_eq msg.target broadcast_mac && not m.is_master
          then relay_downlink env m msg
          else [])

unfoldable pub process_adapter_data : Env → Mesh → MeshMessage → Mesh × List Effect
process_adapter_data env m msg =
    if not m.is_master && not (is_local m msg)
    then (if is_uplink m msg
        then (if leb Config.max_hops msg.hop_count
            then (m, [])
            else transmit_core env m msg.data_type (some msg.payload) adapter_data
                (some (relayed m msg)))
        else (m, relay_downlink env m msg))
    else (m, deliver env m msg)

unfoldable pub process_enrollment_request : Mesh → MeshMessage → Mesh
process_enrollment_request m msg = if not m.is_master then m else record m {
  enrollment_relay = record {
    pending = true;
    mac = msg.origin;
    public_key = msg.enrollment_public_key;
  };
}

-- The first four bytes of the data against those of the node's own key.
abbrev pub fingerprint_matches : Mesh → MeshMessage → Bool
fingerprint_matches m msg = bytes_eq (take 4 msg.payload) (take 4 m.public_key)

unfoldable pub process_join_ack : Env → Mesh → MeshMessage → Mesh × List Effect
process_join_ack env m msg =
    if not (bytes_eq msg.target m.device_mac)
    then (m, relay_downlink env m msg)
    else if not (fingerprint_matches m msg)
    then (m, [])
    else let enrolled = record m { eeprom = save_enrolled_flag m.eeprom true } in
      let t = m.tofu in
      if t.has_master_mac then (enrolled, []) else (
        record enrolled {
          tofu = record t { known_master_mac = msg.origin; has_master_mac = true };
          eeprom = save_known_master_mac enrolled.eeprom msg.origin;
        },
        [],
      )

abbrev pub join_ack_message : Mesh → Mac → Bytes → MeshMessage
join_ack_message m mac key = record zero_message {
  message_type = join_ack;
  data_type = unknown_adapter;
  origin = m.device_mac;
  target = mac;
  last_hop = m.device_mac;
  hop_count = 0;
  payload = take 4 key ++ replicate 60 0;
}

-- `enrollPeer` behind the update of the list.
abbrev confirm_peer : Env → Mesh → Mac → Bytes → Mesh × List Effect
confirm_peer env m mac key =
    let m' = save_peers_to_eeprom m in
    (
      record m' {
        driver = register_peer_with_esp_now env (del_peer m'.driver mac) mac m'.private_key key;
      },
      sends broadcast_mac (join_ack_message m mac key) ∷ [],
    )

unfoldable pub enroll_peer : Env → Mesh → Mac → Bytes → Mesh × List Effect
enroll_peer env m mac key =
    if is_known m.peers mac
    then confirm_peer env
        (record m { peers = update_peer (λ p. record p { public_key = key }) m.peers mac }) mac key
    else (if leb Layout.max_peers (length m.peers)
        then (m, [])
        else confirm_peer env
            (record m {
              peers =
                  (append_peer m.peers
                    (record { mac = mac; public_key = key; last_seen_millis = 0 })).1;
            })
            mac key)

unfoldable pub drain_pending_enrollment : Env → Mesh → Mesh × List Effect
drain_pending_enrollment env m =
    let e = m.enrollment_relay in
    if not e.pending then (m, []) else (
      record m { enrollment_relay = record e { pending = false } },
      if env.has_relay_fn then relays_enrollment e.mac e.public_key ∷ [] else [],
    )
