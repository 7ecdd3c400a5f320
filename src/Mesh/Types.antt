-- ===== src/Mesh/Types.antt =====
-- Mesh.h: messages, peers and the members of the class Mesh; what the methods do to the outside.
use planetopia_nodes.Shared.{ℕ, Bool, List, [], ◌∷◌, ◌==◌, if◌then◌else◌, replicate, Bytes}
use planetopia_nodes.Errors.Codes.{Fault}
use planetopia_nodes.Adapter.Types.{AdapterType, Opcodes}
use planetopia_nodes.Eeprom.Manager.{Manager}

-- The enum's byte comes off the air: `other` keeps a value that has no name.
pub data MeshMessageType : Type 0 where
  adapter_data master_beacon enrollment serial_cmd_broadcast join_ack : MeshMessageType
  other : ℕ → MeshMessageType

-- `static_cast<MeshMessageType>`, of a byte.
unfoldable pub type_of_byte : ℕ → MeshMessageType
type_of_byte n =
    if n == 0
    then adapter_data
    else if n == 1
    then master_beacon
    else if n == 2
    then enrollment
    else if n == 3
    then serial_cmd_broadcast
    else if n == 4
    then join_ack
    else other n

abbrev pub byte_of_type : MeshMessageType → ℕ
byte_of_type adapter_data = 0
byte_of_type master_beacon = 1
byte_of_type enrollment = 2
byte_of_type serial_cmd_broadcast = 3
byte_of_type join_ack = 4
byte_of_type (other n) = n

abbrev pub proto_version : ℕ
proto_version = 2

abbrev pub Mac : Type 0
Mac = Bytes

pub record MeshMessage : Type 0 where
  pub version : ℕ  -- protoVersion
  pub message_type : MeshMessageType
  pub data_type : AdapterType
  pub origin : Mac
  pub target : Mac
  pub last_hop : Mac
  pub payload : Bytes  -- data[64]
  pub hop_count : ℕ  -- uint8_t
  pub epoch_num : ℕ  -- uint32_t
  pub seq_num : ℕ  -- uint16_t
  pub enrollment_public_key : Bytes

pub record PeerInfo : Type 0 where
  pub mac : Mac
  pub public_key : Bytes
  pub last_seen_millis : ℕ

pub record MasterInfo : Type 0 where
  pub mac : Mac
  pub distance : ℕ
  pub next_hop : Mac

pub record ReplayEntry : Type 0 where
  pub mac : Mac
  pub epoch : ℕ
  pub seq : ℕ

pub record ReplayCache : Type 0 where
  pub entries : List ReplayEntry  -- replayCache
  pub idx : ℕ  -- replayCacheIdx

pub record RecvQueueEntry : Type 0 where
  pub src_mac : Mac
  pub msg : MeshMessage

pub record RecvQueue : Type 0 where
  pub slots : List RecvQueueEntry  -- recvQueue
  pub head : ℕ  -- recvQueueHead
  pub tail : ℕ  -- recvQueueTail

pub record PendingRelay : Type 0 where
  pub pending : Bool
  pub msg : MeshMessage
  pub due : ℕ  -- relayPendingAt

-- The trust-on-first-use record of the master.
pub record Tofu : Type 0 where
  pub known_master_mac : Mac
  pub has_master_mac : Bool
  pub known_master_mac_secondary : Mac
  pub has_master_mac_secondary : Bool
  pub dual_master_mode : Bool

pub record PendingEnrollment : Type 0 where
  pub pending : Bool
  pub mac : Mac
  pub public_key : Bytes

-- An entry of the ESP-NOW driver's peer table (esp_now_peer_info_t).
pub record EspPeer : Type 0 where
  pub addr : Mac
  pub encrypt : Bool
  pub lmk : Bytes

-- The members of Mesh. `peers` is peerMacs up to peerCount; `driver` is the driver's peer table and
-- `eeprom` the EEPROM_Manager, which the methods reach as singletons.
pub record Mesh : Type 0 where
  pub device_mac : Mac
  pub is_master : Bool
  pub peers : List PeerInfo
  pub current_master : MasterInfo
  pub last_seen_master_mac : Mac
  pub last_beacon_millis : ℕ
  pub last_master_beacon_received_ms : ℕ
  pub mesh_key : Bytes
  pub private_key : Bytes
  pub public_key : Bytes
  pub boot_epoch : ℕ
  pub tx_seq_num : ℕ
  pub replay : ReplayCache
  pub last_relayed_epoch : ℕ
  pub last_relayed_seq_num : ℕ
  pub relay : PendingRelay
  pub tofu : Tofu
  pub enrollment_relay : PendingEnrollment
  pub queue : RecvQueue
  pub driver : List EspPeer
  pub eeprom : Manager

-- What the methods call outside: esp_now_send, err::fail, the receive callback of main.ino, and the
-- relay of an enrollment to the server.
pub data Effect : Type 0 where
  sends : Mac → MeshMessage → Effect
  fails : Fault → Effect
  delivers : MeshMessage → Effect
  relays_enrollment : Mac → Bytes → Effect

-- What a method finds outside during one call: millis(), esp_random(), whether esp_now_send
-- succeeds, the key derivation (derivePeerLMK, by mbedTLS), the opcodes, and whether the callbacks
-- are set.
pub record Env : Type 0 where
  pub now : ℕ
  pub random : ℕ
  pub send_ok : Mac → MeshMessage → Bool
  pub derive_lmk : Bytes → Bytes → Bytes
  pub opcodes : Opcodes
  pub has_recv_callback : Bool
  pub has_relay_fn : Bool

abbrev pub broadcast_mac : Mac
broadcast_mac = 255 ∷ 255 ∷ 255 ∷ 255 ∷ 255 ∷ 255 ∷ []

abbrev pub zero_mac : Mac
zero_mac = 0 ∷ 0 ∷ 0 ∷ 0 ∷ 0 ∷ 0 ∷ []

-- `mesh_message msg = {}`
abbrev pub zero_message : MeshMessage
zero_message = record {
  version = 0;
  message_type = adapter_data;
  data_type = AdapterType.unknown_adapter;
  origin = zero_mac;
  target = zero_mac;
  last_hop = zero_mac;
  payload = replicate 64 0;
  hop_count = 0;
  epoch_num = 0;
  seq_num = 0;
  enrollment_public_key = replicate 32 0;
}

abbrev pub empty_slot : RecvQueueEntry
empty_slot = record { src_mac = zero_mac; msg = zero_message }
