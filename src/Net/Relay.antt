-- ===== src/Net/Relay.antt =====
-- A node on the way to the master, and the master, when they hear a message for the master.
use planetopia_nodes.Shared.{
  ◌+◌, ◌%◌, ◌<◌, ◌≡◌, refl, sym, ap, ap₂, ◌∙◌, Bool, true, false, not, ◌&&◌, ◌||◌, List, [], ◌∷◌,
  arith, leb, if◌then◌else◌, bytes_eq, bytes_eq_iff,
}
use planetopia_nodes.Mesh.Types.{
  Mac, adapter_data, MeshMessage, RecvQueueEntry, ReplayEntry, Mesh, sends, Env, broadcast_mac,
}
use planetopia_nodes.Mesh.Peers.{update_peer_last_seen}
use planetopia_nodes.Mesh.Replay.{seen, is_replay}
use planetopia_nodes.Mesh.Sending.{send_message, route_to_master, transmit_core, relayed}
use planetopia_nodes.Mesh.Delivery.{process_adapter_data}
use planetopia_nodes.Mesh.Loop.{admit_message, dispatch, process_entry}
use planetopia_nodes.Mesh.Hops.{find_next_hop_to_master_lem}
use planetopia_nodes.Net.Air.{Station}
use planetopia_nodes.Net.Hearing.{IsIdle}
use planetopia_nodes.Net.NextHop.{HasHop}

-- A message of a started node to the adapter of the master.
pub record IsReading (master : Mac) (msg : MeshMessage) : Type 0 where
  pub version : msg.version ≡ 2
  pub epoch : 0 < msg.epoch_num
  pub kind : msg.message_type ≡ adapter_data
  pub target : msg.target ≡ master
  pub unicast : bytes_eq master broadcast_mac ≡ false

-- A node at rest with a route to the master by `next`, whose radio works.
pub record HasRoute (master next : Mac) (s : Station) : Type 0 where
  pub idle : IsIdle s.mesh.queue
  pub plain : s.mesh.is_master ≡ false
  pub learned : s.mesh.tofu.has_master_mac ≡ true
  pub master_mac : s.mesh.current_master.mac ≡ master
  pub hop : s.mesh.current_master.next_hop ≡ next
  pub found : HasHop s.mesh s.env.now
  pub radio : (to : Mac) (msg : MeshMessage) → s.env.send_ok to msg ≡ true
  pub other : bytes_eq master s.mesh.device_mac ≡ false

-- Messages with the same origin and numbers are the same to the replay cache.
abbrev pub AreAlike : MeshMessage → MeshMessage → Type 0
AreAlike a b = (a.origin ≡ b.origin) × (a.epoch_num ≡ b.epoch_num) × (a.seq_num ≡ b.seq_num)

pub seen-congr : (es : List ReplayEntry) (a b : MeshMessage) → AreAlike a b → seen es a ≡ seen es b
unfolding seen
seen-congr [] a b h = refl
seen-congr (e ∷ es) a b (o, p, q) = ground (arith, seen-congr es a b (o, p, q))

-- The state in which the handler of a fresh message runs.
abbrev pub prepared : Env → Mesh → RecvQueueEntry → Mesh
prepared env m e =
    update_peer_last_seen (record m { replay = (is_replay m.replay e.msg).1 }) env.now e.src_mac

admit_fresh :
    (m : Mesh) (msg : MeshMessage)
    → msg.version ≡ 2
    → 0 < msg.epoch_num
    → seen m.replay.entries msg ≡ false
    → admit_message m msg ≡ (true, record m { replay = (is_replay m.replay msg).1 })
unfolding admit_message is_replay
admit_fresh m msg v p fresh = ground arith

pub admitted :
    (env : Env) (m : Mesh) (e : RecvQueueEntry) (master : Mac)
    → IsReading master e.msg
    → seen m.replay.entries e.msg ≡ false
    → process_entry env m e ≡ process_adapter_data env (prepared env m e) e.msg
unfolding process_entry dispatch
admitted env m e master r fresh =
    rw (admit_fresh m e.msg r.version r.epoch fresh, process_entry)
      (ap (dispatch env (prepared env m e) e.msg) r.kind)

-- What of a node the preparation leaves alone.
pub record IsSame (m m' : Mesh) : Type 0 where
  pub device : m'.device_mac ≡ m.device_mac
  pub is_master : m'.is_master ≡ m.is_master
  pub tofu : m'.tofu ≡ m.tofu
  pub route : m'.current_master ≡ m.current_master

pub prepared-IsSame : (env : Env) (m : Mesh) (e : RecvQueueEntry) → IsSame m (prepared env m e)
unfolding update_peer_last_seen
prepared-IsSame env m e = record {
  device = ground arith;
  is_master = ground arith;
  tofu = ground arith;
  route = ground arith;
}

pub routed :
    (env : Env) (m : Mesh) (msg : MeshMessage) (next : Mac)
    → HasHop m env.now
    → m.current_master.next_hop ≡ next
    → ((to : Mac) (x : MeshMessage) → env.send_ok to x ≡ true)
    → route_to_master env m msg adapter_data
      ≡ sends next (record msg { target = m.current_master.mac }) ∷ []
unfolding route_to_master send_message
routed env m msg next (p, e) h ok =
    let (far, hop, range, other) = find_next_hop_to_master_lem m env.now p e in
    rw (e, route_to_master)
      (rw (other, ok p.mac (record msg { target = m.current_master.mac }))
        (ap (λ to. sends to (record msg { target = m.current_master.mac }) ∷ []) (hop ∙ h)))

-- The message behind one more hop.
abbrev pub hopped : Mac → MeshMessage → MeshMessage
hopped mac msg = record msg { hop_count = msg.hop_count + 1; last_hop = mac }

picked {ℓ} :
    {A : Type ℓ} (a b c d : Bool) (x y z w : A)
    → a ≡ true
    → b ≡ true
    → c ≡ true
    → d ≡ false
    → (if a && b then (if c then (if d then x else y) else z) else w) ≡ y
picked a b c d x y z w p q r s = ground arith

-- A reading that is not for this node goes on, one hop further.
pub relays_up :
    (env : Env) (m : Mesh) (msg : MeshMessage) (master next : Mac)
    → IsReading master msg
    → m.is_master ≡ false
    → m.tofu.has_master_mac ≡ true
    → m.current_master.mac ≡ master
    → bytes_eq master m.device_mac ≡ false
    → msg.hop_count < 10
    → HasHop m env.now
    → m.current_master.next_hop ≡ next
    → ((to : Mac) (x : MeshMessage) → env.send_ok to x ≡ true)
    → process_adapter_data env m msg ≡ (m, sends next (hopped m.device_mac msg) ∷ [])
unfolding process_adapter_data transmit_core
relays_up env m msg master next r plain learned route other near found hop ok =
    let a : bytes_eq msg.target m.device_mac ≡ false =
      ap (λ x. bytes_eq x m.device_mac) r.target ∙ other in
    let b : bytes_eq msg.target broadcast_mac ≡ false =
      ap (λ x. bytes_eq x broadcast_mac) r.target ∙ r.unicast in
    let up : bytes_eq msg.target m.current_master.mac ≡ true =
      (bytes_eq_iff msg.target m.current_master.mac).1 (r.target ∙ sym route) in
    let wrapless : (msg.hop_count + 1) % 256 ≡ msg.hop_count + 1 = omega arith in
    let out : route_to_master env m (relayed m msg) adapter_data
        ≡ sends next (hopped m.device_mac msg) ∷ [] =
      routed env m (relayed m msg) next found hop ok
      ∙ ap₂
          (λ to n.
            sends next (record msg { hop_count = n; last_hop = m.device_mac; target = to }) ∷ [])
          (route ∙ sym r.target) wrapless in
    picked (not m.is_master)
      (not (bytes_eq msg.target m.device_mac || bytes_eq msg.target broadcast_mac))
      (m.tofu.has_master_mac && bytes_eq msg.target m.current_master.mac) (leb 10 msg.hop_count) _ _
      _ _ (ground arith) (ground arith) (ground arith) (ground arith)
    ∙ ap (λ es. (m, es)) out
