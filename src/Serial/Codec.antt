-- ===== src/Serial/Codec.antt =====
-- Serial_Adapter: mesh messages as the protobuf messages of the serial line. The encoder and decoder
-- of nanopb are parameters.
use planetopia_nodes.Shared.{
  ℕ, ◌%◌, Bool, true, false, not, ◌&&◌, Option, none, some, [], ◌++◌, if◌then◌else◌, take,
  replicate, Bytes, all_are,
}
use planetopia_nodes.Adapter.Types.{of_raw, raw}
use planetopia_nodes.Mesh.Types.{
  Mac, MeshMessageType, enrollment, serial_cmd_broadcast, join_ack, type_of_byte, byte_of_type,
  MeshMessage,
}

-- `mesh_MeshMessage` of mesh.pb.h: an absent optional field is `none`, and dataType the 32 bits of
-- its int32_t.
pub record PbMessage : Type 0 where
  pub message_type : ℕ
  pub data_type : ℕ
  pub origin : Bytes
  pub target : Bytes
  pub last_hop : Bytes
  pub bytes : Option Bytes  -- data
  pub hop_count : ℕ
  pub epoch_num : ℕ
  pub seq_num : ℕ
  pub version : ℕ
  pub public_key : Option Bytes

-- pb_encode into a buffer of some size, and pb_decode.
pub record Nanopb : Type 0 where
  pub encode : PbMessage → ℕ → Option Bytes
  pub decode : Bytes → Option PbMessage

-- Only the two messages of an enrollment carry a key.
abbrev pub carries_key : MeshMessageType → Bool
carries_key enrollment = true
carries_key join_ack = true
carries_key _ = false

abbrev pub to_pb : MeshMessage → PbMessage
to_pb msg = record {
  message_type = byte_of_type msg.message_type;
  data_type = raw msg.data_type;
  origin = msg.origin;
  target = msg.target;
  last_hop = msg.last_hop;
  bytes = some msg.payload;
  hop_count = msg.hop_count;
  epoch_num = msg.epoch_num;
  seq_num = msg.seq_num;
  version = msg.version;
  public_key =
      if carries_key msg.message_type && not (all_are 0 msg.enrollment_public_key)
      then some msg.enrollment_public_key
      else none;
}

-- `encodeMeshMessage`: no bytes where pb_encode fails.
unfoldable pub encode_mesh_message : Nanopb → MeshMessage → ℕ → Bytes
encode_mesh_message pb msg cap = elim (pb.encode (to_pb msg) cap) [ none ↦ [] | some bs ↦ bs ]

-- A copy of at most n bytes into a zeroed array of the given size.
abbrev pub copied : ℕ → ℕ → Option Bytes → Bytes
copied n size none = replicate size 0
copied n size (some bs) = take size (take n bs ++ replicate size 0)

-- Whether the addresses of the message count; else this node's own MAC replaces them.
abbrev pub keeps_addresses : MeshMessageType → Bool
keeps_addresses join_ack = true
keeps_addresses serial_cmd_broadcast = true
keeps_addresses _ = false

abbrev pub of_pb : Mac → PbMessage → MeshMessage
of_pb own p =
    let ty = type_of_byte (p.message_type % 256) in
    record {
      version = p.version % 256;
      message_type = ty;
      data_type = of_raw p.data_type;
      origin = if keeps_addresses ty then p.origin else own;
      target = p.target;
      last_hop = if keeps_addresses ty then p.last_hop else own;
      payload = copied 12 64 p.bytes;
      hop_count = p.hop_count % 256;
      epoch_num = p.epoch_num;
      seq_num = p.seq_num % 65536;
      enrollment_public_key = copied 32 32 p.public_key;
    }

-- `decodeMeshMessage`
unfoldable pub decode_mesh_message : Nanopb → Mac → Bytes → Option MeshMessage
decode_mesh_message pb own bs = elim (pb.decode bs) [ none ↦ none | some p ↦ some (of_pb own p) ]
