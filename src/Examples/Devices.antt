-- ===== src/Examples/Devices.antt =====
-- The error reporter, the serial line and the adapters at concrete inputs.
use planetopia_nodes.Shared.{
  ◌+◌, ◌≡◌, refl, true, false, none, some, List, [], ◌∷◌, map, arith, if◌then◌else◌, Bytes,
  bytes_eq, all_are,
}
use planetopia_nodes.Errors.Core.{ErrorCore, fresh}
use planetopia_nodes.Eeprom.Durability.{power_cycle}
use planetopia_nodes.Mesh.Types.{join_ack, MeshMessage, type_of_byte}
use planetopia_nodes.Adapter.Types.{pir_adapter, of_raw, documented_opcodes}
use planetopia_nodes.Adapter.Dispatch.{Node, on_mesh_data}
use planetopia_nodes.Adapter.Configuration.{on_mesh_data_lost_at_restart}
use planetopia_nodes.Adapter.Pir.{Sensor, new_sensor}
use planetopia_nodes.Adapter.PirLaws.{
  Event, rises, rounds, IsSettled, reports, one_if, noticed, motions_reported_once,
  armed_after_cooldown,
}
use planetopia_nodes.Adapter.PirLaws
use planetopia_nodes.Serial.Frames.{completes, new_framer, receive, frames}
use planetopia_nodes.Serial.RoundTrip.{IsWaiting, receive-frames}
use planetopia_nodes.Serial.Bounds.{IsSafe, AreSound, receive-Keeps}
use planetopia_nodes.Serial.Codec.{Nanopb, to_pb, encode_mesh_message, decode_mesh_message}
use planetopia_nodes.Serial.CodecLaws.{IsWire, received, decode-encode}
use planetopia_nodes.Serial.Handler.{Line}
use planetopia_nodes.Serial.Loop.{Port}
use planetopia_nodes.Examples.Data.{node_mac, foreign_mac, key, env, manager, reading, config_set}

abbrev in_callback : ErrorCore
in_callback = record fresh {
  in_callback_context = true;
  initialized = true;
  has_error_led = true;
  led_ready = true;
}

new_framer-IsWaiting : IsWaiting new_framer
new_framer-IsWaiting = record { state_is = refl; size = refl }

abbrev payloads : List Bytes
payloads = (8 ∷ 4 ∷ []) ∷ (0xB0 ∷ []) ∷ []

receive-frames_example :
    IsWaiting (receive new_framer (frames payloads)).0
    × ((receive new_framer (frames payloads)).1 ≡ map completes payloads)
receive-frames_example =
    receive-frames new_framer payloads new_framer-IsWaiting
      (omega arith, omega arith, (omega arith, omega arith, tt))

receive-Keeps_example :
    IsSafe (receive new_framer (255 ∷ 255 ∷ 1 ∷ 0 ∷ 9 ∷ [])).0
    × AreSound (receive new_framer (255 ∷ 255 ∷ 1 ∷ 0 ∷ 9 ∷ [])).1
receive-Keeps_example =
    receive-Keeps new_framer (255 ∷ 255 ∷ 1 ∷ 0 ∷ 9 ∷ [])
      (record { size = refl; inside = λ e. ground (arith, e); fits = λ e. ground (arith, e) })

-- The server's approval of a node.
abbrev approval : MeshMessage
approval = record reading {
  message_type = join_ack;
  target = foreign_mac;
  enrollment_public_key = key;
}

-- A codec that knows this one message.
abbrev one_message : Nanopb
one_message = record {
  encode = λ p size. some (32 ∷ []);
  decode = λ bs. if bytes_eq bs (32 ∷ []) then some (to_pb approval) else none;
}

approval-IsWire : IsWire approval
unfolding of_raw type_of_byte
approval-IsWire = record {
  type_is = refl;
  data_is = refl;
  version_in = omega arith;
  hop_in = omega arith;
  seq_in = omega arith;
  payload_in = refl;
  key_in = refl;
}

decode-encode_example :
    decode_mesh_message one_message node_mac (encode_mesh_message one_message approval 256)
    ≡ some (received node_mac approval)
unfolding bytes_eq all_are
decode-encode_example =
    decode-encode one_message node_mac approval 256 (32 ∷ []) approval-IsWire refl refl

abbrev line : Line
line = record {
  pb = one_message;
  env = env;
  own_mac = node_mac;
  is_dev_mode = false;
  can_transmit = true;
}

abbrev port : Port
port = record { framer = new_framer; last_health_ms = 0; last_hops = 0 }

abbrev pir_node : Node
pir_node = record {
  adapter_type = pir_adapter;
  can_transmit = true;
  own_mac = node_mac;
  is_dev_mode = false;
  opcodes = documented_opcodes;
}

on_mesh_data_lost_at_restart_example :
    power_cycle (on_mesh_data pir_node manager config_set).0 ≡ power_cycle manager
on_mesh_data_lost_at_restart_example = on_mesh_data_lost_at_restart pir_node manager config_set

abbrev armed : Sensor
armed = record new_sensor { is_initialized = true; interrupt_enabled = true }

-- Two edges in one cooldown, and one after it.
abbrev evening : List Event
evening = rises ∷ rounds 1000 ∷ rises ∷ rounds 5000 ∷ rises ∷ []

motions_reported_once_example :
    IsSettled (PirLaws.run pir_node armed evening).0
    × (reports (PirLaws.run pir_node armed evening).1
          + one_if (PirLaws.run pir_node armed evening).0.motion_detected
        ≡ one_if armed.motion_detected + noticed pir_node armed evening)
motions_reported_once_example =
    motions_reported_once pir_node armed evening refl
      (record { started = refl; reported = refl; armed = refl })

-- A sensor in its cooldown since 1000.
abbrev cooling : Sensor
cooling = record new_sensor {
  is_initialized = true;
  last_trigger = 1000;
  timer_active = true;
  motion_sent = true;
}
