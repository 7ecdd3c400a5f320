-- ===== src/Examples/Data.antt =====
-- Concrete inputs: a node with one peer and a route to its master, messages, and EEPROM contents.
use planetopia_nodes.Shared.{
  refl, true, false, [], ◌∷◌, ◌++◌, arith, ◌==◌, if◌then◌else◌, take, replicate, Bytes,
}
use planetopia_nodes.Config
use planetopia_nodes.Eeprom.Rom.{Rom}
use planetopia_nodes.Eeprom.Manager.{Manager}
use planetopia_nodes.Eeprom.RoundTrips.{IsWritable}
use planetopia_nodes.Adapter.Types.{
  pir_adapter, unknown_adapter, serial_adapter, documented_opcodes,
}
use planetopia_nodes.Mesh.Types.{
  Mac, adapter_data, master_beacon, MeshMessage, PeerInfo, RecvQueue, RecvQueueEntry, Mesh, Env,
  zero_mac, zero_message, empty_slot,
}
use planetopia_nodes.Mesh.Replay.{empty_cache}
use planetopia_nodes.Mesh.Queue.{IsValid}

abbrev pub node_mac : Mac
node_mac = 2 ∷ 0 ∷ 0 ∷ 0 ∷ 0 ∷ 1 ∷ []

abbrev pub peer_mac : Mac
peer_mac = 2 ∷ 0 ∷ 0 ∷ 0 ∷ 0 ∷ 2 ∷ []

abbrev pub master_mac : Mac
master_mac = 2 ∷ 0 ∷ 0 ∷ 0 ∷ 0 ∷ 9 ∷ []

abbrev pub foreign_mac : Mac
foreign_mac = 2 ∷ 0 ∷ 0 ∷ 0 ∷ 0 ∷ 66 ∷ []

abbrev pub key : Bytes
key = replicate 32 7

abbrev pub env : Env
env = record {
  now = 20000;
  random = 7;
  send_ok = λ to msg. true;
  derive_lmk = λ own other. take 16 other;
  opcodes = documented_opcodes;
  has_recv_callback = true;
  has_relay_fn = true;
}

-- An EEPROM at the current layout version with nothing else in it.
abbrev pub rom : Rom
rom = record {
  cells = λ x. if x == 494 then 3 else 255;
  committed = λ x. if x == 494 then 3 else 255;
}

abbrev pub manager : Manager
manager = record {
  is_initialized = true;
  is_dev_mode = false;
  dirty = false;
  last_flush_ms = 0;
  rom = rom;
}

abbrev pub unstarted : Manager
unstarted = record manager { is_initialized = false }

pub manager-IsWritable : IsWritable manager
manager-IsWritable = record { started = refl; production = refl }

abbrev pub empty_ring : RecvQueue
empty_ring = record { slots = replicate 8 empty_slot; head = 0; tail = 0 }

abbrev pub peer : PeerInfo
peer = record { mac = peer_mac; public_key = key; last_seen_millis = 19000 }

-- A node two hops from its master, by the way of its peer.
abbrev pub node : Mesh
node = record {
  device_mac = node_mac;
  is_master = false;
  peers = peer ∷ [];
  current_master = record { mac = master_mac; distance = 2; next_hop = peer_mac };
  last_seen_master_mac = master_mac;
  last_beacon_millis = 0;
  last_master_beacon_received_ms = 18000;
  mesh_key = Config.default_mesh_key;
  private_key = key;
  public_key = key;
  boot_epoch = 4;
  tx_seq_num = 10;
  replay = empty_cache;
  last_relayed_epoch = 0;
  last_relayed_seq_num = 0;
  relay = record { pending = false; msg = zero_message; due = 0 };
  tofu = record {
    known_master_mac = master_mac;
    has_master_mac = true;
    known_master_mac_secondary = zero_mac;
    has_master_mac_secondary = false;
    dual_master_mode = false;
  };
  enrollment_relay = record { pending = false; mac = zero_mac; public_key = replicate 32 0 };
  queue = empty_ring;
  driver = [];
  eeprom = manager;
}

abbrev pub entry : RecvQueueEntry
entry = record { src_mac = peer_mac; msg = zero_message }

pub empty_ring-IsValid : IsValid empty_ring
empty_ring-IsValid = record { size = refl; head_in = omega arith; tail_in = omega arith }

-- A beacon of the master that came by the peer.
abbrev pub beacon : MeshMessage
beacon = record zero_message {
  version = 2;
  message_type = master_beacon;
  data_type = unknown_adapter;
  origin = master_mac;
  target = replicate 6 255;
  last_hop = peer_mac;
  hop_count = 1;
  epoch_num = 3;
  seq_num = 8;
}

-- A reading for the node's adapter.
abbrev pub reading : MeshMessage
reading = record zero_message {
  version = 2;
  message_type = adapter_data;
  data_type = pir_adapter;
  origin = master_mac;
  target = node_mac;
  last_hop = peer_mac;
  hop_count = 1;
  epoch_num = 3;
  seq_num = 9;
}

-- The server's order to become a PIR node.
abbrev pub config_set : MeshMessage
config_set = record zero_message {
  version = 2;
  data_type = serial_adapter;
  origin = master_mac;
  target = node_mac;
  payload = (0xC1 ∷ []) ++ node_mac ++ (2 ∷ []) ++ replicate 56 0;
}
