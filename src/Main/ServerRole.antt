-- ===== src/Main/ServerRole.antt =====
-- The role of a running node under the frames of the server.
use planetopia_nodes.Shared.{
  ℕ, refl, ◌∙◌, inl, inr, not, ◌&&◌, some, List, [], ◌∷◌, arith, ltb, if◌then◌else◌, Bool-cases,
  Option-cases, get_or, replicate, Bytes,
}
use planetopia_nodes.Adapter.Types.{serial_adapter, is_type}
use planetopia_nodes.Mesh.Sending.{broadcast_adapter_data}
use planetopia_nodes.Mesh.Types.{
  MeshMessageType, adapter_data, master_beacon, enrollment, serial_cmd_broadcast, join_ack,
  MeshMessage, Mesh,
}
use planetopia_nodes.Mesh.Types
use planetopia_nodes.Serial.Frames.{FrameEvent, completes, receive}
use planetopia_nodes.Serial.Frames
use planetopia_nodes.Serial.Codec.{encode_mesh_message, decode_mesh_message}
use planetopia_nodes.Errors.Codes.{ErrorTypeDigit, ModuleDigit, fault}
use planetopia_nodes.Serial.Handler.{
  Line, Action, fails, has_restarted, and_then, on_mesh, health_bytes, send_health_report,
  set_tx_power, forward, control, answer_enrollment, handle_message, handle_complete_frame,
  handle_events, on_mesh_data_impl, mesh_control, write_frame,
}
use planetopia_nodes.Serial.Loop.{Port, report_health, read_serial, loop}
use planetopia_nodes.Main.Role.{
  KeepsRole, broadcast-KeepsRole, transmit-KeepsRole, enroll_peer-KeepsRole,
}

and_then-KeepsRole :
    (m : Mesh) (r : Mesh × List Action) (k : Mesh → Mesh × List Action)
    → KeepsRole m r.0
    → ((m' : Mesh) → KeepsRole m' (k m').0)
    → KeepsRole m (and_then r k).0
and_then-KeepsRole m (m', acts) k h next = elim (Bool-cases (has_restarted acts)) [
  | inl stop ↦ rw stop h
  | inr on ↦ rw on (next m' ∙ h)
]

report-KeepsRole : (l : Line) (m : Mesh) → KeepsRole m (send_health_report l m).0
unfolding send_health_report
report-KeepsRole l m = transmit-KeepsRole l.env m serial_adapter (some (health_bytes l))

power-KeepsRole : (m : Mesh) (b : ℕ) → KeepsRole m (set_tx_power m b).0
unfolding set_tx_power
power-KeepsRole m b = ground arith

forward-KeepsRole :
    (l : Line) (m : Mesh) (msg : MeshMessage) (ty : MeshMessageType)
    → KeepsRole m (forward l m msg ty).0
unfolding forward
forward-KeepsRole l m msg adapter_data =
    ground (arith, transmit-KeepsRole l.env m msg.data_type (some msg.payload))
forward-KeepsRole l m msg serial_cmd_broadcast =
    broadcast-KeepsRole l.env m msg.data_type (some msg.payload)
forward-KeepsRole l m msg master_beacon = refl
forward-KeepsRole l m msg enrollment = refl
forward-KeepsRole l m msg join_ack = refl
forward-KeepsRole l m msg (Types.other n) = refl

control-KeepsRole : (l : Line) (msg : MeshMessage) (m : Mesh) → KeepsRole m (control l msg m).0
unfolding control
control-KeepsRole l msg m =
    let b = get_or msg.payload 1 0 in
    let bs = l.env.opcodes.tx_power_set ∷ b ∷ replicate 62 0 in
    let spread =
      and_then-KeepsRole m (set_tx_power m b)
        (λ m'.
          if m'.is_master && not (ltb 2 b)
          then on_mesh (broadcast_adapter_data l.env m' serial_adapter (some bs))
          else (m', []))
        (power-KeepsRole m b)
        (λ m'. ground (arith, broadcast-KeepsRole l.env m' serial_adapter (some bs))) in
    ground (arith, report-KeepsRole l m, spread)

answer-KeepsRole :
    (l : Line) (m : Mesh) (msg : MeshMessage) → KeepsRole m (answer_enrollment l m msg).0
unfolding answer_enrollment
answer-KeepsRole l m msg =
    ground (arith, enroll_peer-KeepsRole l.env m msg.target msg.enrollment_public_key)

abbrev controlled : Line → MeshMessage → Mesh → Mesh × List Action
controlled l msg m = if is_type msg.data_type serial_adapter then control l msg m else (m, [])

controlled-KeepsRole :
    (l : Line) (msg : MeshMessage) (m : Mesh) → KeepsRole m (controlled l msg m).0
controlled-KeepsRole l msg m = ground (arith, control-KeepsRole l msg m)

others-KeepsRole :
    (l : Line) (m : Mesh) (msg : MeshMessage) (ty : MeshMessageType)
    → KeepsRole m (and_then (forward l m msg ty) (controlled l msg)).0
others-KeepsRole l m msg ty =
    and_then-KeepsRole m (forward l m msg ty) (controlled l msg) (forward-KeepsRole l m msg ty)
      (controlled-KeepsRole l msg)

message-KeepsRole :
    (l : Line) (m : Mesh) (msg : MeshMessage) (ty : MeshMessageType)
    → KeepsRole m (handle_message l m msg ty).0
unfolding handle_message
message-KeepsRole l m msg join_ack = answer-KeepsRole l m msg
message-KeepsRole l m msg adapter_data = others-KeepsRole l m msg adapter_data
message-KeepsRole l m msg serial_cmd_broadcast = others-KeepsRole l m msg serial_cmd_broadcast
message-KeepsRole l m msg master_beacon = others-KeepsRole l m msg master_beacon
message-KeepsRole l m msg enrollment = others-KeepsRole l m msg enrollment
message-KeepsRole l m msg (Types.other n) = others-KeepsRole l m msg (Types.other n)

frame-KeepsRole : (l : Line) (m : Mesh) (bs : Bytes) → KeepsRole m (handle_complete_frame l m bs).0
unfolding handle_complete_frame
frame-KeepsRole l m bs = elim (Option-cases (decode_mesh_message l.pb l.own_mac bs)) [
  | inl e ↦ rw (e, handle_complete_frame) refl
  | inr (msg, e) ↦ rw (e, handle_complete_frame) (message-KeepsRole l m msg msg.message_type)
]

events-KeepsRole :
    (l : Line) (m : Mesh) (es : List FrameEvent) → KeepsRole m (handle_events l m es).0
unfolding handle_events has_restarted
events-KeepsRole l m [] = refl
events-KeepsRole l m (completes p ∷ es) =
    and_then-KeepsRole m (handle_complete_frame l m p) (λ m'. handle_events l m' es)
      (frame-KeepsRole l m p) (λ m'. events-KeepsRole l m' es)
events-KeepsRole l m (Frames.fails f ∷ es) = events-KeepsRole l m es

health-KeepsRole : (l : Line) (p : Port) (m : Mesh) → KeepsRole m (report_health l p m).1
unfolding report_health
health-KeepsRole l p m = ground (arith, report-KeepsRole l m)

-- Serial_Adapter::loop keeps the role.
pub serial_loop-KeepsRole :
    (l : Line) (p : Port) (m : Mesh) (bs : Bytes) → KeepsRole m (loop l p m bs).1
unfolding loop read_serial
serial_loop-KeepsRole l p m bs =
    let (p₁, m₁, acts) = report_health l p m in
    events-KeepsRole l m₁ (receive p₁.framer bs).1 ∙ health-KeepsRole l p m

mesh_control-KeepsRole :
    (l : Line) (msg : MeshMessage) (m : Mesh)
    → KeepsRole m (if is_type msg.data_type serial_adapter then mesh_control l msg m else (m, [])).0
mesh_control-KeepsRole l msg m =
    ground (arith, report-KeepsRole l m, power-KeepsRole m (get_or msg.payload 1 0))

-- So does its onMeshDataImpl.
pub impl-KeepsRole :
    (l : Line) (m : Mesh) (msg : MeshMessage) → KeepsRole m (on_mesh_data_impl l m msg).0
unfolding on_mesh_data_impl
impl-KeepsRole l m msg =
    and_then-KeepsRole m
      (if is_type msg.data_type serial_adapter then mesh_control l msg m else (m, []))
      (λ m'. (
        m',
        write_frame (encode_mesh_message l.pb msg 256)
            (fails (fault ErrorTypeDigit.comm ModuleDigit.adapter 4) ∷ []),
      ))
      (mesh_control-KeepsRole l msg m) (λ m'. refl)
