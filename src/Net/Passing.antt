-- ===== src/Net/Passing.antt =====
-- What a node with a route, and what the master makes of a reading that it hears.
use planetopia_nodes.Shared.{
  ◌<◌, ◌≡◌, ap, ◌∙◌, Bool, true, false, not, ◌&&◌, List, [], ◌∷◌, ◌++◌, arith, if◌then◌else◌,
  bytes_eq,
}
use planetopia_nodes.Mesh.Types.{
  Mac, MeshMessage, MasterInfo, Tofu, RecvQueueEntry, Mesh, sends, delivers, Env, broadcast_mac,
}
use planetopia_nodes.Mesh.Peers.{find_next_hop_to_master}
use planetopia_nodes.Mesh.Replay.{seen, is_replay}
use planetopia_nodes.Mesh.Sending.{relay_downlink}
use planetopia_nodes.Mesh.Delivery.{is_local, is_rejected_config, deliver, process_adapter_data}
use planetopia_nodes.Net.Air.{Frame, Station, take_in}
use planetopia_nodes.Net.Hearing.{IsIdle, entry_of, passed, take_in-handle}
use planetopia_nodes.Net.NextHop.{HasHop, HasHop-update_peer_last_seen}
use planetopia_nodes.Net.Relay.{
  IsReading, HasRoute, prepared, prepared-IsSame, admitted, hopped, relays_up,
}

HasHop-prepared :
    (env : Env) (m : Mesh) (e : RecvQueueEntry)
    → HasHop m env.now
    → HasHop (prepared env m e) env.now
unfolding find_next_hop_to_master
HasHop-prepared env m e (p, h) =
    HasHop-update_peer_last_seen (record m { replay = (is_replay m.replay e.msg).1 }) env.now
      e.src_mac (p, h)

abbrev pub behind : Station → Frame → Mesh
behind s f = let m = s.mesh in prepared s.env (record m { queue = passed m.queue f }) (entry_of f)

pub relay_hears :
    (master next : Mac) (s : Station) (f : Frame)
    → IsReading master f.msg
    → HasRoute master next s
    → seen s.mesh.replay.entries f.msg ≡ false
    → f.msg.hop_count < 10
    → (take_in s f ≡ (behind s f, sends next (hopped s.mesh.device_mac f.msg) ∷ []))
      × ((behind s f).device_mac ≡ s.mesh.device_mac)
unfolding find_next_hop_to_master
relay_hears master next s f r h fresh near =
    let m = s.mesh in
    let m₁ = record m { queue = passed m.queue f } in
    let m₂ = behind s f in
    let k = prepared-IsSame s.env m₁ (entry_of f) in
    let up =
      relays_up s.env m₂ f.msg master next r (k.is_master ∙ h.plain)
        (ap (λ (t : Tofu). t.has_master_mac) k.tofu ∙ h.learned)
        (ap (λ (t : MasterInfo). t.mac) k.route ∙ h.master_mac)
        (ap (λ d. bytes_eq master d) k.device ∙ h.other) near
        (HasHop-prepared s.env m₁ (entry_of f) h.found)
        (ap (λ (t : MasterInfo). t.next_hop) k.route ∙ h.hop) h.radio in
    (
      take_in-handle s f h.idle
          ∙ admitted s.env m₁ (entry_of f) master r fresh
          ∙ up
          ∙ ap (λ d. (m₂, sends next (hopped d f.msg) ∷ [])) k.device,
      k.device,
    )

-- The master at rest, which takes the reading.
pub record IsGateway (master : Mac) (msg : MeshMessage) (s : Station) : Type 0 where
  pub idle : IsIdle s.mesh.queue
  pub is_master : s.mesh.is_master ≡ true
  pub device : s.mesh.device_mac ≡ master
  pub linked : s.env.has_recv_callback ≡ true
  pub accepted : is_rejected_config s.env s.mesh msg ≡ false

-- The master hands a message for itself to its adapter.
arrives :
    (env : Env) (m : Mesh) (msg : MeshMessage) (master : Mac)
    → IsReading master msg
    → m.is_master ≡ true
    → env.has_recv_callback ≡ true
    → is_rejected_config env m msg ≡ false
    → process_adapter_data env m msg ≡ (m, delivers msg ∷ [])
unfolding process_adapter_data deliver
arrives env m msg master r top linked accepted =
    let b : bytes_eq msg.target broadcast_mac ≡ false =
      ap (λ x. bytes_eq x broadcast_mac) r.target ∙ r.unicast in
    let out : deliver env m msg ≡ delivers msg ∷ [] =
      delivered_once _ _ (bytes_eq msg.target broadcast_mac && not m.is_master) (delivers msg)
        (relay_downlink env m msg) accepted linked (ground arith) in
    master_branch (not m.is_master) (not (is_local m msg)) _ _ (ground arith)
    ∙ ap (λ es. (m, es)) out
  where
    delivered_once :
        {A : Type 0} (a b c : Bool) (x : A) (z : List A)
        → a ≡ false
        → b ≡ true
        → c ≡ false
        → (if a then [] else (if b then x ∷ [] else []) ++ (if c then z else [])) ≡ x ∷ []
    delivered_once a b c x z p q s = ground arith

    master_branch : {A : Type 0} (a b : Bool) (x y : A) → a ≡ false → (if a && b then x else y) ≡ y
    master_branch a b x y p = ground arith

pub master_hears :
    (master : Mac) (s : Station) (f : Frame)
    → IsReading master f.msg
    → IsGateway master f.msg s
    → seen s.mesh.replay.entries f.msg ≡ false
    → (take_in s f ≡ (behind s f, delivers f.msg ∷ []))
      × ((behind s f).device_mac ≡ s.mesh.device_mac)
master_hears master s f r h fresh =
    let m = s.mesh in
    let m₁ = record m { queue = passed m.queue f } in
    let m₂ = behind s f in
    let k = prepared-IsSame s.env m₁ (entry_of f) in
    let top : m₂.is_master ≡ true = k.is_master ∙ h.is_master in
    let taken : is_rejected_config s.env m₂ f.msg ≡ false =
      ap (λ t. is_rejected_config s.env (record m { tofu = t }) f.msg) k.tofu ∙ h.accepted in
    let up : process_adapter_data s.env m₂ f.msg ≡ (m₂, delivers f.msg ∷ []) =
      arrives s.env m₂ f.msg master r top h.linked taken in
    (take_in-handle s f h.idle ∙ admitted s.env m₁ (entry_of f) master r fresh ∙ up, k.device)
