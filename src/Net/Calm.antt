-- ===== src/Net/Calm.antt =====
-- A node at rest before and behind a frame: no handler changes the number of its peers, and the ring
-- is empty again.
use planetopia_nodes.Shared.{
  ◌≤◌, ◌≡◌, refl, sym, subst, ◌∙◌, inl, inr, some, arith, leb, Bool-cases, Option-cases, length,
}
use planetopia_nodes.Mesh.Types.{
  MeshMessageType, adapter_data, master_beacon, enrollment, serial_cmd_broadcast, join_ack, other,
  Mac, MeshMessage, RecvQueueEntry, Mesh, Env,
}
use planetopia_nodes.Mesh.Sending.{transmit_core}
use planetopia_nodes.Mesh.Beacons.{check_tofu, accept_beacon, schedule_relay, process_master_beacon}
use planetopia_nodes.Mesh.Delivery.{
  process_adapter_data, process_enrollment_request, process_join_ack,
}
use planetopia_nodes.Mesh.Loop.{admit_message, dispatch, process_entry}
use planetopia_nodes.Net.Air.{Frame, Station}
use planetopia_nodes.Net.Hearing.{IsIdle, handle, handle-IsIdle}
use planetopia_nodes.Net.Spread.{AreKept, admit-AreKept, last_seen-AreKept}

accept-AreKept : (env : Env) (m : Mesh) (msg : MeshMessage) → AreKept m (accept_beacon env m msg)
unfolding accept_beacon schedule_relay
accept-AreKept env m msg = ground arith

tofu-AreKept :
    (env : Env) (m m' : Mesh) (origin : Mac) → check_tofu env m origin ≡ some m' → AreKept m m'
unfolding check_tofu
tofu-AreKept env m m' origin e = ground arith

beacon-AreKept :
    (env : Env) (m : Mesh) (msg : MeshMessage) → AreKept m (process_master_beacon env m msg).0
unfolding process_master_beacon
beacon-AreKept env m msg = elim (Bool-cases (leb 10 msg.hop_count)) [
  | inl far ↦ rw far refl
  | inr near ↦ rw near (elim (Option-cases (check_tofu env m msg.origin)) [
    | inl e ↦ rw (e, process_master_beacon) refl
    | inr (m', e) ↦ rw e (accept-AreKept env m' msg ∙ tofu-AreKept env m m' msg.origin e)
  ])
]

data-AreKept :
    (env : Env) (m : Mesh) (msg : MeshMessage) → AreKept m (process_adapter_data env m msg).0
unfolding process_adapter_data transmit_core
data-AreKept env m msg = ground arith

ack-AreKept : (env : Env) (m : Mesh) (msg : MeshMessage) → AreKept m (process_join_ack env m msg).0
unfolding process_join_ack
ack-AreKept env m msg = ground arith

request-AreKept : (m : Mesh) (msg : MeshMessage) → AreKept m (process_enrollment_request m msg)
unfolding process_enrollment_request
request-AreKept m msg = ground arith

dispatch-AreKept :
    (env : Env) (m : Mesh) (msg : MeshMessage) (ty : MeshMessageType)
    → AreKept m (dispatch env m msg ty).0
unfolding dispatch
dispatch-AreKept env m msg enrollment = request-AreKept m msg
dispatch-AreKept env m msg join_ack = ack-AreKept env m msg
dispatch-AreKept env m msg master_beacon = beacon-AreKept env m msg
dispatch-AreKept env m msg adapter_data = data-AreKept env m msg
dispatch-AreKept env m msg serial_cmd_broadcast = refl
dispatch-AreKept env m msg (other n) = refl

entry-AreKept : (env : Env) (m : Mesh) (e : RecvQueueEntry) → AreKept m (process_entry env m e).0
unfolding process_entry
entry-AreKept env m e = elim (Bool-cases (admit_message m e.msg).0) [
  | inl ok ↦ rw ok (
      dispatch-AreKept env _ e.msg e.msg.message_type
      ∙ last_seen-AreKept (admit_message m e.msg).1 env.now e.src_mac
      ∙ admit-AreKept m e.msg)
  | inr bad ↦ rw bad (admit-AreKept m e.msg)
]

-- Nothing waits in the ring, and the list of peers keeps to its limit.
pub record IsCalm (m : Mesh) : Type 0 where
  pub idle : IsIdle m.queue
  pub few_peers : length m.peers ≤ 10

pub handle-IsCalm : (s : Station) (f : Frame) → IsCalm s.mesh → IsCalm (handle s f).0
handle-IsCalm s f c = record {
  idle = handle-IsIdle s f c.idle;
  few_peers = subst (λ n. n ≤ 10) (sym (entry-AreKept s.env _ _)) c.few_peers;
}
