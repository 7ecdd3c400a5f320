-- ===== src/Serial/Handler.antt =====
-- Serial_Adapter: what it does with the frames of the server and with the messages of the mesh.
use planetopia_nodes.Shared.{
  ℕ, ◌/◌, ◌%◌, Bool, true, false, not, ◌&&◌, ◌||◌, none, some, List, [], ◌∷◌, ◌++◌, map, ltb, ◌==◌,
  if◌then◌else◌, get_or, take, drop, replicate, Bytes, bytes_eq, all_are,
}
use planetopia_nodes.Config
use planetopia_nodes.Errors.Codes.{ErrorTypeDigit, ModuleDigit, Fault, fault}
use planetopia_nodes.Eeprom.Manager.{preset_of_byte, save_tx_power_preset, save_node_id}
use planetopia_nodes.Adapter.Types.{serial_adapter, is_type}
use planetopia_nodes.Adapter.Factory.{adapter_type_from_eeprom, save_adapter_type_to_eeprom}
use planetopia_nodes.Mesh.Types.{
  Mac, MeshMessageType, adapter_data, enrollment, serial_cmd_broadcast, join_ack, MeshMessage, Mesh,
  Env, zero_message,
}
use planetopia_nodes.Mesh.Types
use planetopia_nodes.Mesh.Sending.{broadcast_adapter_data, transmit}
use planetopia_nodes.Mesh.Delivery.{enroll_peer}
use planetopia_nodes.Serial.Frames.{FrameEvent, completes, frame}
use planetopia_nodes.Serial.Frames
use planetopia_nodes.Serial.Codec.{Nanopb, encode_mesh_message, decode_mesh_message}

-- What the adapter finds outside: nanopb, the mesh's surroundings, the radio's MAC, the factory's
-- developer flag and whether its transmit function is set.
pub record Line : Type 0 where
  pub pb : Nanopb
  pub env : Env
  pub own_mac : Mac
  pub is_dev_mode : Bool
  pub can_transmit : Bool

-- What it does outside; `meshes` is what a method of Mesh does.
pub data Action : Type 0 where
  meshes : Types.Effect → Action
  fails : Fault → Action
  writes : Bytes → Action
  sets_tx_power : ℕ → Action
  restarts : Action

abbrev pub on_mesh : Mesh × List Types.Effect → Mesh × List Action
on_mesh (m, es) = (m, map meshes es)

-- Whether a call has restarted the node: ESP.restart does not come back.
unfoldable pub has_restarted : List Action → Bool
has_restarted [] = false
has_restarted (restarts ∷ acts) = true
has_restarted (_ ∷ acts) = has_restarted acts

-- One call after the other.
abbrev pub and_then : Mesh × List Action → (Mesh → Mesh × List Action) → Mesh × List Action
and_then (m, acts) k =
    let (m', acts') = k m in if has_restarted acts then (m, acts) else (m', acts ++ acts')

-- The 64 bytes of a health report.
abbrev pub health_bytes : Line → Bytes
health_bytes l =
    let uptime = l.env.now / 1000 in
    (l.env.opcodes.health_report ∷ 1 ∷ [])
    ++ take 6 l.own_mac
    ++ (uptime % 256 ∷ uptime / 256 % 256 ∷ uptime / 65536 % 256 ∷ uptime / 16777216 % 256 ∷ [])
    ++ replicate 52 0

-- `sendHealthReport`: Mesh::transmit is a function, so the test of its address always holds.
unfoldable pub send_health_report : Line → Mesh → Mesh × List Action
send_health_report l m = on_mesh (transmit l.env m serial_adapter (some (health_bytes l)))

-- A preset above 2 is ignored.
unfoldable pub set_tx_power : Mesh → ℕ → Mesh × List Action
set_tx_power m b = if ltb 2 b then (m, []) else (
  record m { eeprom = save_tx_power_preset m.eeprom (preset_of_byte b) },
  sets_tx_power (get_or Config.tx_power_values b 0) ∷ [],
)

abbrev is_for : Line → Bytes → Bool
is_for l mac = all_are 255 mac || bytes_eq mac l.own_mac

-- The switch of handleCompleteFrame over the message type.
unfoldable pub forward : Line → Mesh → MeshMessage → MeshMessageType → Mesh × List Action
forward l m msg adapter_data =
    if l.can_transmit
    then on_mesh (transmit l.env m msg.data_type (some msg.payload))
    else (m, fails (fault ErrorTypeDigit.config ModuleDigit.adapter 6) ∷ [])
forward l m msg serial_cmd_broadcast =
    on_mesh (broadcast_adapter_data l.env m msg.data_type (some msg.payload))
forward l m msg _ = (m, [])

-- The node that is the master passes a preset on to the whole mesh.
abbrev spread_tx_power : Line → ℕ → Mesh → Mesh × List Action
spread_tx_power l b m =
    if m.is_master && not (ltb 2 b)
    then on_mesh (
        broadcast_adapter_data l.env m serial_adapter
          (some (l.env.opcodes.tx_power_set ∷ b ∷ replicate 62 0)))
    else (m, [])

-- The control opcodes of handleCompleteFrame.
unfoldable pub control : Line → MeshMessage → Mesh → Mesh × List Action
control l msg m =
    let op = get_or msg.payload 0 0 in
    if op == l.env.opcodes.health_req
    then send_health_report l m
    else if op == l.env.opcodes.config_set
    then (if is_for l msg.target
        then (
          record m {
            eeprom =
                save_adapter_type_to_eeprom l.is_dev_mode m.eeprom
                  (adapter_type_from_eeprom (get_or msg.payload 7 0));
          },
          restarts ∷ [],
        )
        else (m, []))
    else if op == l.env.opcodes.tx_power_set
    then and_then (set_tx_power m (get_or msg.payload 1 0))
        (spread_tx_power l (get_or msg.payload 1 0))
    else if (op == l.env.opcodes.node_id_set) && is_for l (take 6 (drop 1 msg.payload))
    then (record m { eeprom = save_node_id m.eeprom (get_or msg.payload 7 0) }, [])
    else (m, [])

-- The server's answer to an enrollment: with a key it approves, without it rejects.
unfoldable pub answer_enrollment : Line → Mesh → MeshMessage → Mesh × List Action
answer_enrollment l m msg =
    if all_are 0 msg.enrollment_public_key
    then (m, [])
    else on_mesh (enroll_peer l.env m msg.target msg.enrollment_public_key)

-- handleCompleteFrame behind the decoding.
unfoldable pub handle_message : Line → Mesh → MeshMessage → MeshMessageType → Mesh × List Action
handle_message l m msg join_ack = answer_enrollment l m msg
handle_message l m msg ty =
    and_then (forward l m msg ty)
      (λ m'. if is_type msg.data_type serial_adapter then control l msg m' else (m', []))

-- `handleCompleteFrame`, without the simulation mode.
unfoldable pub handle_complete_frame : Line → Mesh → Bytes → Mesh × List Action
handle_complete_frame l m bs = elim (decode_mesh_message l.pb l.own_mac bs) [
  | none ↦ (m, fails (fault ErrorTypeDigit.comm ModuleDigit.adapter 5) ∷ [])
  | some msg ↦ handle_message l m msg msg.message_type
]

-- What the frame receiver asks for, in its order.
unfoldable pub handle_events : Line → Mesh → List FrameEvent → Mesh × List Action
handle_events l m [] = (m, [])
handle_events l m (completes p ∷ es) =
    and_then (handle_complete_frame l m p) (λ m'. handle_events l m' es)
handle_events l m (Frames.fails f ∷ es) = and_then (m, fails f ∷ []) (λ m'. handle_events l m' es)

-- The opcodes that onMeshDataImpl knows.
abbrev pub mesh_control : Line → MeshMessage → Mesh → Mesh × List Action
mesh_control l msg m =
    let op = get_or msg.payload 0 0 in
    if op == l.env.opcodes.health_req
    then send_health_report l m
    else if op == l.env.opcodes.tx_power_set
    then set_tx_power m (get_or msg.payload 1 0)
    else (m, [])

-- The length and the bytes to the serial line, if the encoding gave any.
abbrev pub write_frame : Bytes → List Action → List Action
write_frame [] otherwise = otherwise
write_frame (b ∷ bs) otherwise = writes (frame (b ∷ bs)) ∷ []

-- `onMeshDataImpl`
unfoldable pub on_mesh_data_impl : Line → Mesh → MeshMessage → Mesh × List Action
on_mesh_data_impl l m msg =
    and_then (if is_type msg.data_type serial_adapter then mesh_control l msg m else (m, [])) (λ m'.
      (
        m',
        write_frame (encode_mesh_message l.pb msg 256)
            (fails (fault ErrorTypeDigit.comm ModuleDigit.adapter 4) ∷ []),
      ))

-- `relayEnrollmentToServer`
unfoldable pub relay_enrollment_to_server : Line → Mac → Bytes → List Action
relay_enrollment_to_server l mac key =
    write_frame
      (encode_mesh_message l.pb
        (record zero_message {
          message_type = enrollment;
          version = 1;
          origin = mac;
          enrollment_public_key = key;
        })
        128)
      []
