-- ===== src/Main/Role.antt =====
-- The role of a running node: what the mesh, the server and the adapters leave of it.
use planetopia_nodes.Shared.{
  ℕ, ◌≡◌, refl, ◌∙◌, inl, inr, Option, none, some, arith, leb, Bool-cases, Option-cases, Bytes,
}
use planetopia_nodes.Config
use planetopia_nodes.Adapter.Types.{AdapterType}
use planetopia_nodes.Mesh.Types.{
  MeshMessageType, adapter_data, master_beacon, enrollment, serial_cmd_broadcast, join_ack,
  MeshMessage, Mac, Mesh, Env, RecvQueueEntry,
}
use planetopia_nodes.Mesh.Types
use planetopia_nodes.Mesh.Peers.{update_peer_last_seen, save_peers_to_eeprom}
use planetopia_nodes.Mesh.Sending.{
  build_message, transmit_core, broadcast_adapter_data, transmit, broadcast_master_beacon,
}
use planetopia_nodes.Mesh.Beacons.{
  check_tofu, schedule_relay, accept_beacon, process_master_beacon, check_master_timeout,
}
use planetopia_nodes.Mesh.Delivery.{
  process_adapter_data, process_enrollment_request, process_join_ack, enroll_peer,
  drain_pending_enrollment,
}
use planetopia_nodes.Mesh.Loop.{admit_message, dispatch, process_entry, dispatch_relay}

-- A method keeps the role.
abbrev pub KeepsRole : Mesh → Mesh → Type 0
KeepsRole m m' = m'.is_master ≡ m.is_master

transmit_core-KeepsRole :
    (env : Env) (m : Mesh) (t : AdapterType) (bs : Option Bytes) (ty : MeshMessageType)
    (over : Option MeshMessage)
    → KeepsRole m (transmit_core env m t bs ty over).0
unfolding transmit_core build_message
transmit_core-KeepsRole env m t bs ty none = refl
transmit_core-KeepsRole env m t bs ty (some over) = refl

pub broadcast-KeepsRole :
    (env : Env) (m : Mesh) (t : AdapterType) (bs : Option Bytes)
    → KeepsRole m (broadcast_adapter_data env m t bs).0
unfolding broadcast_adapter_data build_message
broadcast-KeepsRole env m t bs = refl

pub transmit-KeepsRole :
    (env : Env) (m : Mesh) (t : AdapterType) (bs : Option Bytes)
    → KeepsRole m (transmit env m t bs).0
unfolding transmit
transmit-KeepsRole env m t bs =
    ground
      (arith, broadcast-KeepsRole env m t bs, transmit_core-KeepsRole env m t bs adapter_data none)

check_tofu-KeepsRole :
    (env : Env) (m : Mesh) (mac : Mac) {m' : Mesh} → check_tofu env m mac ≡ some m' → KeepsRole m m'
unfolding check_tofu
check_tofu-KeepsRole env m mac e = ground arith

accept_beacon-KeepsRole :
    (env : Env) (m : Mesh) (msg : MeshMessage) → KeepsRole m (accept_beacon env m msg)
unfolding accept_beacon schedule_relay
accept_beacon-KeepsRole env m msg = ground arith

beacon-KeepsRole :
    (env : Env) (m : Mesh) (msg : MeshMessage) → KeepsRole m (process_master_beacon env m msg).0
unfolding process_master_beacon
beacon-KeepsRole env m msg = elim (Bool-cases (leb Config.max_hops msg.hop_count)) [
  | inl far ↦ rw far refl
  | inr near ↦ rw near (elim (Option-cases (check_tofu env m msg.origin)) [
    | inl e ↦ rw (e, process_master_beacon) refl
    | inr (m', e) ↦
        rw (e, process_master_beacon)
          (accept_beacon-KeepsRole env m' msg ∙ check_tofu-KeepsRole env m msg.origin e)
  ])
]

join_ack-KeepsRole :
    (env : Env) (m : Mesh) (msg : MeshMessage) → KeepsRole m (process_join_ack env m msg).0
unfolding process_join_ack
join_ack-KeepsRole env m msg = ground arith

data-KeepsRole :
    (env : Env) (m : Mesh) (msg : MeshMessage) → KeepsRole m (process_adapter_data env m msg).0
unfolding process_adapter_data transmit_core
data-KeepsRole env m msg = ground arith

request-KeepsRole : (m : Mesh) (msg : MeshMessage) → KeepsRole m (process_enrollment_request m msg)
unfolding process_enrollment_request
request-KeepsRole m msg = ground arith

dispatch-KeepsRole :
    (env : Env) (m : Mesh) (msg : MeshMessage) (ty : MeshMessageType)
    → KeepsRole m (dispatch env m msg ty).0
unfolding dispatch
dispatch-KeepsRole env m msg enrollment = request-KeepsRole m msg
dispatch-KeepsRole env m msg join_ack = join_ack-KeepsRole env m msg
dispatch-KeepsRole env m msg master_beacon = beacon-KeepsRole env m msg
dispatch-KeepsRole env m msg adapter_data = data-KeepsRole env m msg
dispatch-KeepsRole env m msg serial_cmd_broadcast = refl
dispatch-KeepsRole env m msg (Types.other n) = refl

admit-KeepsRole : (m : Mesh) (msg : MeshMessage) → KeepsRole m (admit_message m msg).1
unfolding admit_message
admit-KeepsRole m msg = ground arith

last_seen-KeepsRole :
    (m : Mesh) (now : ℕ) (mac : Mac) → KeepsRole m (update_peer_last_seen m now mac)
unfolding update_peer_last_seen
last_seen-KeepsRole m now mac = ground arith

pub process_entry-KeepsRole :
    (env : Env) (m : Mesh) (e : RecvQueueEntry) → KeepsRole m (process_entry env m e).0
unfolding process_entry
process_entry-KeepsRole env m e =
    let m₁ = (admit_message m e.msg).1 in
    let m₂ = update_peer_last_seen m₁ env.now e.src_mac in
    ground (
      arith,
      admit-KeepsRole m e.msg,
      last_seen-KeepsRole m₁ env.now e.src_mac,
      dispatch-KeepsRole env m₂ e.msg e.msg.message_type,
    )

pub enroll_peer-KeepsRole :
    (env : Env) (m : Mesh) (mac : Mac) (key : Bytes) → KeepsRole m (enroll_peer env m mac key).0
unfolding enroll_peer save_peers_to_eeprom
enroll_peer-KeepsRole env m mac key = ground arith

pub pending-KeepsRole : (env : Env) (m : Mesh) → KeepsRole m (drain_pending_enrollment env m).0
unfolding drain_pending_enrollment
pending-KeepsRole env m = ground arith

pub relay-KeepsRole : (env : Env) (m : Mesh) → KeepsRole m (dispatch_relay env m).0
unfolding dispatch_relay transmit_core
relay-KeepsRole env m = ground arith

pub own_beacon-KeepsRole : (env : Env) (m : Mesh) → KeepsRole m (broadcast_master_beacon env m).0
unfolding broadcast_master_beacon build_message
own_beacon-KeepsRole env m = ground arith

pub timeout-KeepsRole : (m : Mesh) (now : ℕ) → KeepsRole m (check_master_timeout m now)
unfolding check_master_timeout
timeout-KeepsRole m now = ground arith
