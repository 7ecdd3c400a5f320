-- ===== src/Mesh/Draining.antt =====
-- The ring over a whole call of drainRecvQueue: what the handlers do to it, and the fuel.
use planetopia_nodes.Shared.{
  ℕ, zero, suc, ◌≤◌, ◌≡◌, refl, sym, ap, subst, ◌∙◌, inl, inr, some, List, [], ◌∷◌, arith, leb,
  Bool-cases, Option-cases, length,
}
use planetopia_nodes.Mesh.Types.{
  MeshMessageType, adapter_data, master_beacon, enrollment, serial_cmd_broadcast, join_ack, other,
  Mac, MeshMessage, RecvQueueEntry, Mesh, Env,
}
use planetopia_nodes.Mesh.Receive.{take_entry}
use planetopia_nodes.Mesh.Sending.{transmit_core}
use planetopia_nodes.Mesh.Queue.{
  IsValid, Takes, contents, contents-take_entry, length-window, count,
}
use planetopia_nodes.Mesh.Peers.{update_peer_last_seen}
use planetopia_nodes.Mesh.Beacons.{check_tofu, accept_beacon, schedule_relay, process_master_beacon}
use planetopia_nodes.Mesh.Delivery.{
  process_adapter_data, process_enrollment_request, process_join_ack,
}
use planetopia_nodes.Mesh.Loop.{admit_message, dispatch, process_entry, drain_recv_queue}

queue-admit_message : (m : Mesh) (msg : MeshMessage) → (admit_message m msg).1.queue ≡ m.queue
unfolding admit_message
queue-admit_message m msg = ground arith

queue-update_peer_last_seen :
    (m : Mesh) (now : ℕ) (mac : Mac) → (update_peer_last_seen m now mac).queue ≡ m.queue
unfolding update_peer_last_seen
queue-update_peer_last_seen m now mac = ground arith

queue-accept_beacon :
    (env : Env) (m : Mesh) (msg : MeshMessage) → (accept_beacon env m msg).queue ≡ m.queue
unfolding accept_beacon schedule_relay
queue-accept_beacon env m msg = ground arith

queue-check_tofu :
    (env : Env) (m m' : Mesh) (origin : Mac)
    → check_tofu env m origin ≡ some m'
    → m'.queue ≡ m.queue
unfolding check_tofu
queue-check_tofu env m m' origin e = ground arith

queue-process_master_beacon :
    (env : Env) (m : Mesh) (msg : MeshMessage) → (process_master_beacon env m msg).0.queue ≡ m.queue
unfolding process_master_beacon
queue-process_master_beacon env m msg = elim (Bool-cases (leb 10 msg.hop_count)) [
  | inl far ↦ rw far refl
  | inr near ↦ rw near (elim (Option-cases (check_tofu env m msg.origin)) [
    | inl e ↦ rw (e, process_master_beacon) refl
    | inr (m', e) ↦ rw e (queue-accept_beacon env m' msg ∙ queue-check_tofu env m m' msg.origin e)
  ])
]

queue-process_adapter_data :
    (env : Env) (m : Mesh) (msg : MeshMessage) → (process_adapter_data env m msg).0.queue ≡ m.queue
unfolding process_adapter_data transmit_core
queue-process_adapter_data env m msg = ground arith

queue-process_join_ack :
    (env : Env) (m : Mesh) (msg : MeshMessage) → (process_join_ack env m msg).0.queue ≡ m.queue
unfolding process_join_ack
queue-process_join_ack env m msg = ground arith

queue-process_enrollment_request :
    (m : Mesh) (msg : MeshMessage) → (process_enrollment_request m msg).queue ≡ m.queue
unfolding process_enrollment_request
queue-process_enrollment_request m msg = ground arith

queue-dispatch :
    (env : Env) (m : Mesh) (msg : MeshMessage) (ty : MeshMessageType)
    → (dispatch env m msg ty).0.queue ≡ m.queue
unfolding dispatch
queue-dispatch env m msg enrollment = queue-process_enrollment_request m msg
queue-dispatch env m msg join_ack = queue-process_join_ack env m msg
queue-dispatch env m msg master_beacon = queue-process_master_beacon env m msg
queue-dispatch env m msg adapter_data = queue-process_adapter_data env m msg
queue-dispatch env m msg serial_cmd_broadcast = refl
queue-dispatch env m msg (other n) = refl

-- No handler touches the ring.
pub queue-process_entry :
    (env : Env) (m : Mesh) (e : RecvQueueEntry) → (process_entry env m e).0.queue ≡ m.queue
unfolding process_entry
queue-process_entry env m e = elim (Bool-cases (admit_message m e.msg).0) [
  | inl ok ↦ rw ok (
      queue-dispatch env _ e.msg e.msg.message_type
      ∙ queue-update_peer_last_seen (admit_message m e.msg).1 env.now e.src_mac
      ∙ queue-admit_message m e.msg)
  | inr bad ↦ rw bad (queue-admit_message m e.msg)
]

pub empty_drained :
    (fuel : ℕ) (env : Env) (m : Mesh)
    → IsValid m.queue
    → length (contents m.queue) ≤ fuel
    → IsValid (drain_recv_queue fuel env m).0.queue
      × (contents (drain_recv_queue fuel env m).0.queue ≡ [])
unfolding drain_recv_queue
empty_drained zero env m v h = (v, length-zero (contents m.queue) (omega arith))
  where
    length-zero : (l : List RecvQueueEntry) → length l ≡ 0 → l ≡ []
    length-zero [] e = refl
    length-zero (x ∷ xs) e = absurd (omega arith)
empty_drained (suc fuel) env m v h = elim (Option-cases (take_entry m.queue)) [
  | inl e ↦ rw (e, drain_recv_queue) (v, subst (Takes m.queue) e (contents-take_entry m.queue v))
  | inr ((entry, q), e) ↦
      let (c, v') : Takes m.queue (some (entry, q)) =
        subst (Takes m.queue) e (contents-take_entry m.queue v) in
      let m₁ : Mesh = (process_entry env (record m { queue = q }) entry).0 in
      let same : q ≡ m₁.queue = sym (queue-process_entry env (record m { queue = q }) entry) in
      rw (e, drain_recv_queue)
        (empty_drained fuel env m₁ (subst IsValid same v')
          (subst (λ r. length (contents r) ≤ fuel) same (omega (arith, ap length c))))
]

-- After the eight rounds of one call of drainRecvQueue a valid ring is empty, and still a valid ring.
pub drain_empties :
    (env : Env) (m : Mesh)
    → IsValid m.queue
    → IsValid (drain_recv_queue 8 env m).0.queue
      × (contents (drain_recv_queue 8 env m).0.queue ≡ [])
drain_empties env m v =
    empty_drained 8 env m v
      (omega (arith, length-window m.queue.slots m.queue.tail (count m.queue)))
