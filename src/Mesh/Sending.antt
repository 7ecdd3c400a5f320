-- ===== src/Mesh/Sending.antt =====
-- Mesh.cpp: the messages that a node builds, sends, broadcasts and relays.
use planetopia_nodes.Shared.{
  ◌+◌, ◌%◌, not, Option, none, some, List, [], ◌∷◌, ◌++◌, ltb, leb, if◌then◌else◌, elapsed, set,
  take, replicate, Bytes, bytes_eq,
}
use planetopia_nodes.Config
use planetopia_nodes.Errors.Codes.{ErrorTypeDigit, ModuleDigit, fault}
use planetopia_nodes.Adapter.Types.{AdapterType, unknown_adapter}
use planetopia_nodes.Mesh.Types.{
  Mac, MeshMessageType, adapter_data, master_beacon, enrollment, MeshMessage, PeerInfo, Mesh,
  Effect, sends, fails, Env, broadcast_mac, zero_message, proto_version,
}
use planetopia_nodes.Mesh.Peers.{find_next_hop_to_master}

abbrev pub payload_of : Option Bytes → Bytes
payload_of none = replicate 64 0
payload_of (some d) = take 64 d

-- `buildMessage`; `++txSeqNum` is in uint16_t. A null `data` is `none`; another points to 64 bytes.
unfoldable pub build_message :
    Mesh → AdapterType → Option Bytes → MeshMessageType → Mesh × MeshMessage
build_message m type bytes msg_type =
    let seq = (m.tx_seq_num + 1) % 65536 in
    (
      record m { tx_seq_num = seq },
      record zero_message {
        version = proto_version;
        message_type = msg_type;
        data_type = type;
        origin = m.device_mac;
        target = elim msg_type [ master_beacon ↦ broadcast_mac | _ ↦ m.current_master.mac ];
        last_hop = m.device_mac;
        payload = payload_of bytes;
        hop_count = 0;
        epoch_num = m.boot_epoch;
        seq_num = seq;
      },
    )

unfoldable pub send_message : Env → Mac → Mac → MeshMessage → List Effect
send_message env device target msg =
    if bytes_eq target device
    then []
    else if env.send_ok target msg
    then sends target msg ∷ []
    else sends target msg ∷ fails (fault ErrorTypeDigit.comm ModuleDigit.mesh 5) ∷ []

-- The loops of broadcastToAllPeers and relayDownlink.
unfoldable pub send_to_each : Env → Mac → List PeerInfo → MeshMessage → List Effect
send_to_each env device [] msg = []
send_to_each env device (p ∷ ps) msg =
    (if bytes_eq p.mac device then [] else send_message env device p.mac msg)
    ++ send_to_each env device ps msg

unfoldable pub broadcast_to_all_peers : Env → Mesh → MeshMessage → List Effect
broadcast_to_all_peers env m msg = send_to_each env m.device_mac m.peers msg

-- The part of transmitCore behind the choice of the message.
unfoldable pub route_to_master : Env → Mesh → MeshMessage → MeshMessageType → List Effect
route_to_master env m msg msg_type =
    let msg' : MeshMessage = elim msg_type [
      | adapter_data ↦ record msg { target = m.current_master.mac }
      | _ ↦ msg
    ] in
    elim (find_next_hop_to_master m env.now) [
      | none ↦ fails (fault ErrorTypeDigit.comm ModuleDigit.mesh 8) ∷ []
      | some hop ↦
          if not (bytes_eq hop.mac m.device_mac)
          then send_message env m.device_mac hop.mac msg'
          else fails (fault ErrorTypeDigit.comm ModuleDigit.mesh 8) ∷ []
    ]

-- `transmitCore`: `over` is msgOverride.
unfoldable pub transmit_core :
    Env
    → Mesh
    → AdapterType
    → Option Bytes
    → MeshMessageType
    → Option MeshMessage
    → Mesh × List Effect
transmit_core env m type bytes msg_type none =
    let (m', msg) = build_message m type bytes msg_type in (m', route_to_master env m' msg msg_type)
transmit_core env m type bytes msg_type (some over) = (m, route_to_master env m over msg_type)

unfoldable pub broadcast_adapter_data : Env → Mesh → AdapterType → Option Bytes → Mesh × List Effect
broadcast_adapter_data env m type bytes =
    let (m', msg) = build_message m type bytes adapter_data in
    (m', broadcast_to_all_peers env m' (record msg { target = broadcast_mac }))

-- `Mesh::transmit`, with the instance set.
unfoldable pub transmit : Env → Mesh → AdapterType → Option Bytes → Mesh × List Effect
transmit env m type bytes =
    if m.is_master
    then broadcast_adapter_data env m type bytes
    else transmit_core env m type bytes adapter_data none

-- A direct call of esp_now_send, whose result is only logged.
unfoldable pub broadcast_master_beacon : Env → Mesh → Mesh × List Effect
broadcast_master_beacon env m =
    if ltb (elapsed env.now m.last_beacon_millis) Config.master_beacon_interval_ms
    then (m, [])
    else let (m', msg) =
        build_message (record m { last_beacon_millis = env.now }) unknown_adapter none
          master_beacon in
      (m', sends broadcast_mac (record msg { payload = set msg.payload 0 1; hop_count = 0 }) ∷ [])

-- A message on its way: one hop more, and this node as the last hop. The increment is in uint8_t.
abbrev pub relayed : Mesh → MeshMessage → MeshMessage
relayed m msg = record msg { hop_count = (msg.hop_count + 1) % 256; last_hop = m.device_mac }

unfoldable pub relay_downlink : Env → Mesh → MeshMessage → List Effect
relay_downlink env m msg =
    if leb Config.max_hops msg.hop_count
    then []
    else send_to_each env m.device_mac m.peers (relayed m msg)

unfoldable pub send_enrollment_request : Mesh → List Effect
send_enrollment_request m =
    sends broadcast_mac (record zero_message {
      message_type = enrollment;
      data_type = unknown_adapter;
      origin = m.device_mac;
      target = broadcast_mac;
      last_hop = m.device_mac;
      hop_count = 0;
      enrollment_public_key = m.public_key;
    })
    ∷ []
