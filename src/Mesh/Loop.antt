-- ===== src/Mesh/Loop.antt =====
-- Mesh::drainRecvQueue and Mesh::loop. No callback runs between the steps of one call here; what the
-- callback may do in between is the subject of Mesh/Concurrency.antt.
use planetopia_nodes.Shared.{
  ℕ, zero, suc, Bool, true, false, not, ◌&&◌, none, some, List, [], ◌++◌, ltb, leb, ◌==◌,
  if◌then◌else◌,
}
use planetopia_nodes.Eeprom.Manager.{flush_if_dirty}
use planetopia_nodes.Mesh.Types.{
  MeshMessageType, adapter_data, master_beacon, enrollment, join_ack, MeshMessage, RecvQueueEntry,
  Mesh, Effect, Env, proto_version,
}
use planetopia_nodes.Mesh.Peers.{update_peer_last_seen}
use planetopia_nodes.Mesh.Replay.{is_replay}
use planetopia_nodes.Mesh.Receive.{take_entry}
use planetopia_nodes.Mesh.Sending.{transmit_core, broadcast_master_beacon}
use planetopia_nodes.Mesh.Beacons.{process_master_beacon}
use planetopia_nodes.Mesh.Delivery.{
  process_adapter_data, process_enrollment_request, process_join_ack, drain_pending_enrollment,
}

-- The two checks before the dispatch: whether the message goes on, and the state after them.
unfoldable pub admit_message : Mesh → MeshMessage → Bool × Mesh
admit_message m msg =
    if not (msg.version == 0) && not (msg.version == proto_version)
    then (false, m)
    else if (msg.version == proto_version) && ltb 0 msg.epoch_num
    then (let (replayed, cache) = is_replay m.replay msg in
        (not replayed, record m { replay = cache }))
    else (true, m)

-- The switch over the message type.
unfoldable pub dispatch : Env → Mesh → MeshMessage → MeshMessageType → Mesh × List Effect
dispatch env m msg enrollment = (process_enrollment_request m msg, [])
dispatch env m msg join_ack = process_join_ack env m msg
dispatch env m msg master_beacon = process_master_beacon env m msg
dispatch env m msg adapter_data = process_adapter_data env m msg
dispatch env m msg _ = (m, [])

-- The body of drainRecvQueue's loop for one entry.
unfoldable pub process_entry : Env → Mesh → RecvQueueEntry → Mesh × List Effect
process_entry env m entry =
    let (ok, m') = admit_message m entry.msg in
    if ok
    then dispatch env (update_peer_last_seen m' env.now entry.src_mac) entry.msg
        entry.msg.message_type
    else (m', [])

-- The loop, with fuel: the ring holds fewer than recv_queue_size entries.
unfoldable pub drain_recv_queue : ℕ → Env → Mesh → Mesh × List Effect
drain_recv_queue zero env m = (m, [])
drain_recv_queue (suc fuel) env m = elim (take_entry m.queue) [
  | none ↦ (m, [])
  | some (entry, q) ↦
      let (m₁, es₁) = process_entry env (record m { queue = q }) entry in
      let (m₂, es₂) = drain_recv_queue fuel env m₁ in (m₂, es₁ ++ es₂)
]

-- The deferred relay of a beacon.
unfoldable pub dispatch_relay : Env → Mesh → Mesh × List Effect
dispatch_relay env m =
    let r = m.relay in
    if r.pending && leb r.due env.now
    then transmit_core env (record m { relay = record r { pending = false } }) r.msg.data_type
        (some r.msg.payload) master_beacon (some r.msg)
    else (m, [])

unfoldable pub loop : Env → Mesh → Mesh × List Effect
loop env m =
    let (m₁, es₁) = drain_recv_queue 8 env m in
    let m₂ = record m₁ { eeprom = flush_if_dirty m₁.eeprom env.now env.now } in
    let (m₃, es₂) = drain_pending_enrollment env m₂ in
    let (m₄, es₃) = dispatch_relay env m₃ in
    let (m₅, es₄) : Mesh × List Effect =
      if m₄.is_master then broadcast_master_beacon env m₄ else (m₄, []) in
    (m₅, es₁ ++ es₂ ++ es₃ ++ es₄)
