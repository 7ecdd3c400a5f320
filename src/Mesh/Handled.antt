-- ===== src/Mesh/Handled.antt =====
-- What drainRecvQueue owes to each message that waits, written apart from its code: which messages it
-- drops, which handler answers the others, and in which order.
use planetopia_nodes.Shared.{
  ℕ, zero, suc, ◌+◌, ◌%◌, ◌≤◌, ◌<◌, ◌≡◌, refl, sym, ap, subst, ◌∙◌, ◌≢◌, ◌⊎◌, inl, inr, Bool, true,
  false, not, some, List, [], ◌∷◌, ◌++◌, arith, ltb, ◌==◌, ltb→lt, ==_iff, Bool-cases, Option-cases,
  length,
}
use planetopia_nodes.Mesh.Types.{
  MeshMessageType, adapter_data, master_beacon, enrollment, serial_cmd_broadcast, join_ack, other,
  MeshMessage, RecvQueueEntry, RecvQueue, Mesh, Env, Effect,
}
use planetopia_nodes.Mesh.Replay.{seen, remember, is_replay}
use planetopia_nodes.Mesh.Receive.{take_entry}
use planetopia_nodes.Mesh.Queue.{
  IsValid, Takes, contents, contents-take_entry, length-window, count,
}
use planetopia_nodes.Mesh.Peers.{update_peer_last_seen}
use planetopia_nodes.Mesh.Beacons.{process_master_beacon}
use planetopia_nodes.Mesh.Delivery.{
  process_adapter_data, process_enrollment_request, process_join_ack,
}
use planetopia_nodes.Mesh.Loop.{admit_message, dispatch, process_entry, drain_recv_queue}
use planetopia_nodes.Mesh.Draining.{queue-process_entry, empty_drained, drain_empties}

-- A message that must be answered, with the state in which it is: one without an epoch is not looked
-- up among the messages seen, another is not among them and is remembered.
pub data Admits (m : Mesh) (msg : MeshMessage) : Mesh → Type 0 where
  old_version : msg.version ≡ 0 → Admits m msg m
  no_epoch : msg.version ≡ 2 → msg.epoch_num ≡ 0 → Admits m msg m
  fresh :
      msg.version ≡ 2
      → 0 < msg.epoch_num
      → seen m.replay.entries msg ≡ false
      → Admits m msg (record m { replay = remember m.replay msg })

-- The answer to a message by its type.
pub data Answers (env : Env) (m : Mesh) (msg : MeshMessage) : Mesh → List Effect → Type 0 where
  enrolls : msg.message_type ≡ enrollment → Answers env m msg (process_enrollment_request m msg) []
  joins :
      msg.message_type ≡ join_ack
      → Answers env m msg (process_join_ack env m msg).0 (process_join_ack env m msg).1
  hears_master :
      msg.message_type ≡ master_beacon
      → Answers env m msg (process_master_beacon env m msg).0 (process_master_beacon env m msg).1
  passes_data :
      msg.message_type ≡ adapter_data
      → Answers env m msg (process_adapter_data env m msg).0 (process_adapter_data env m msg).1
  ignores_server : msg.message_type ≡ serial_cmd_broadcast → Answers env m msg m []
  ignores : (n : ℕ) → msg.message_type ≡ other n → Answers env m msg m []

-- What becomes of one entry. The sender of a message that is answered has been seen.
pub data Handles (env : Env) (m : Mesh) (e : RecvQueueEntry) : Mesh → List Effect → Type 0 where
  drops_version : e.msg.version ≢ 0 → e.msg.version ≢ 2 → Handles env m e m []
  drops_replay :
      e.msg.version ≡ 2
      → 0 < e.msg.epoch_num
      → seen m.replay.entries e.msg ≡ true
      → Handles env m e m []
  answers :
      {m₁ m₂ : Mesh} {es : List Effect}
      → Admits m e.msg m₁
      → Answers env (update_peer_last_seen m₁ env.now e.src_mac) e.msg m₂ es
      → Handles env m e m₂ es

-- The state in which the entry at the tail is handled: the tail is past it.
abbrev pub taken_out : Mesh → Mesh
taken_out m = record m { queue = record m.queue { tail = (m.queue.tail + 1) % 8 } }

-- Entries handled one after the other, with all that they cause.
pub data Drains (env : Env) : Mesh → List RecvQueueEntry → Mesh → List Effect → Type 0 where
  done : (m : Mesh) → Drains env m [] m []
  next :
      {m m₁ m₂ : Mesh} {e : RecvQueueEntry} {rest : List RecvQueueEntry} {es es' : List Effect}
      → Handles env (taken_out m) e m₁ es
      → Drains env m₁ rest m₂ es'
      → Drains env m (e ∷ rest) m₂ (es ++ es')

dispatch-Answers :
    (env : Env) (m : Mesh) (msg : MeshMessage) (ty : MeshMessageType)
    → msg.message_type ≡ ty
    → Answers env m msg (dispatch env m msg ty).0 (dispatch env m msg ty).1
unfolding dispatch
dispatch-Answers env m msg enrollment h = enrolls h
dispatch-Answers env m msg join_ack h = joins h
dispatch-Answers env m msg master_beacon h = hears_master h
dispatch-Answers env m msg adapter_data h = passes_data h
dispatch-Answers env m msg serial_cmd_broadcast h = ignores_server h
dispatch-Answers env m msg (other n) h = ignores n h

-- What the two checks decide about a message.
abbrev Decides : Mesh → MeshMessage → Bool × Mesh → Type 0
Decides m msg r =
    ((r.0 ≡ true) × Admits m msg r.1)
    ⊎ ((r ≡ (false, m))
        × (((msg.version ≢ 0) × (msg.version ≢ 2))
            ⊎ ((msg.version ≡ 2) × (0 < msg.epoch_num) × (seen m.replay.entries msg ≡ true))))

replay-Decides :
    (m : Mesh) (msg : MeshMessage)
    → msg.version ≡ 2
    → 0 < msg.epoch_num
    → Decides m msg (
        let (replayed, cache) = is_replay m.replay msg in
        (not replayed, record m { replay = cache }))
unfolding is_replay
replay-Decides m msg v h = elim (Bool-cases (seen m.replay.entries msg)) [
  | inl e ↦ rw e (inr (refl, inr (v, h, refl)))
  | inr e ↦ rw e (inl (refl, fresh v h e))
]

admit_message-Decides : (m : Mesh) (msg : MeshMessage) → Decides m msg (admit_message m msg)
unfolding admit_message
admit_message-Decides m msg = elim (Bool-cases (msg.version == 0)) [
  | inl z ↦
      let is0 : msg.version ≡ 0 = (==_iff msg.version 0).0 z in
      let not2 : (msg.version == 2) ≡ false = ground arith in
      rw (z, not2) (inl (refl, old_version is0))
  | inr nz ↦ elim (Bool-cases (msg.version == 2)) [
    | inl t ↦
        let is2 : msg.version ≡ 2 = (==_iff msg.version 2).0 t in
        elim (Bool-cases (ltb 0 msg.epoch_num)) [
          | inl p ↦ rw (nz, t, p) (replay-Decides m msg is2 (ltb→lt 0 msg.epoch_num p))
          | inr z ↦ rw (nz, t, z) (inl (refl, no_epoch is2 (ground arith)))
        ]
    | inr nt ↦ rw (nz, nt) (inr (refl, inl (ground arith, ground arith)))
  ]
]

process_entry-Handles :
    (env : Env) (m : Mesh) (e : RecvQueueEntry)
    → Handles env m e (process_entry env m e).0 (process_entry env m e).1
unfolding process_entry
process_entry-Handles env m e = elim (admit_message-Decides m e.msg) [
  | inl (ok, a) ↦ rw ok (answers a (dispatch-Answers env _ e.msg e.msg.message_type refl))
  | inr (bad, inl (v, w)) ↦ rw bad (drops_version v w)
  | inr (bad, inr (v, h, s)) ↦ rw bad (drops_replay v h s)
]

-- What take_entry hands out comes with the tail moved past it.
take_entry-tail :
    (q q' : RecvQueue) (e : RecvQueueEntry)
    → take_entry q ≡ some (e, q')
    → record q { tail = (q.tail + 1) % 8 } ≡ q'
unfolding take_entry
take_entry-tail q q' e h = ground arith

-- Enough rounds of the loop handle all that waits.
drain-Drains :
    (fuel : ℕ) (env : Env) (m : Mesh)
    → IsValid m.queue
    → length (contents m.queue) ≤ fuel
    → let r = drain_recv_queue fuel env m in Drains env m (contents m.queue) r.0 r.1
unfolding drain_recv_queue
drain-Drains zero env m v h =
    subst (λ l. Drains env m l m []) (sym (empty_drained zero env m v h).1) (done m)
drain-Drains (suc fuel) env m v h = elim (Option-cases (take_entry m.queue)) [
  | inl e ↦
      let none_left : contents m.queue ≡ [] =
        subst (Takes m.queue) e (contents-take_entry m.queue v) in
      rw (e, drain_recv_queue) (subst (λ l. Drains env m l m []) (sym none_left) (done m))
  | inr ((entry, q), e) ↦
      let (c, v') : Takes m.queue (some (entry, q)) =
        subst (Takes m.queue) e (contents-take_entry m.queue v) in
      let m₀ : Mesh = record m { queue = q } in
      let (m₁, es) = process_entry env m₀ entry in
      let same : m₁.queue ≡ q = queue-process_entry env m₀ entry in
      let r = drain_recv_queue fuel env m₁ in
      let rest : Drains env m₁ (contents m₁.queue) r.0 r.1 =
        drain-Drains fuel env m₁ (subst IsValid (sym same) v')
          (subst (λ b. length (contents b) ≤ fuel) (sym same) (omega (arith, ap length c))) in
      let first : Handles env (taken_out m) entry m₁ es =
        subst (λ b. Handles env (record m { queue = b }) entry m₁ es)
          (sym (take_entry-tail m.queue q entry e)) (process_entry-Handles env m₀ entry) in
      rw (e, drain_recv_queue)
        (subst (λ l. Drains env m l r.0 (es ++ r.1))
          (sym (c ∙ ap (λ b. entry ∷ contents b) (sym same))) (next first rest))
]

-- One call of drainRecvQueue, of eight rounds, handles all that waits in a valid ring, the oldest entry
-- first, and leaves the ring empty and valid. To handle an entry is to drop it if its version is
-- neither 0 nor 2, or if it is of version 2 with an epoch and is among the messages seen; and else to
-- remember it, if it is of version 2 with an epoch, to note that its sender was seen, and to run the
-- handler of its type. The end state and the effects are those of the entries in their order.
pub drain_handles_all :
    (env : Env) (m : Mesh)
    → IsValid m.queue
    → let r = drain_recv_queue 8 env m in
      Drains env m (contents m.queue) r.0 r.1 × IsValid r.0.queue × (contents r.0.queue ≡ [])
drain_handles_all env m v =
    let (valid, empty) = drain_empties env m v in
    (
      drain-Drains 8 env m v
          (omega (arith, length-window m.queue.slots m.queue.tail (count m.queue))),
      valid,
      empty,
    )
