-- ===== src/Net/Sorts.antt =====
-- What kind of messages a node sends behind a message: beacons only by its loop.
use planetopia_nodes.Shared.{
  ◌+◌, ◌≡◌, refl, sym, subst, ◌∙◌, ◌≢◌, inl, inr, Bool, true, false, not, ◌&&◌, List, [], ◌∷◌, ◌++◌,
  arith, ltb, leb, if◌then◌else◌, Bool-cases, Option-cases, bytes_eq,
}
use planetopia_nodes.Mesh.Types.{
  MeshMessageType, adapter_data, master_beacon, enrollment, serial_cmd_broadcast, join_ack, other,
  Mac, MeshMessage, PeerInfo, RecvQueueEntry, Mesh, Effect, fails, delivers, Env, broadcast_mac,
}
use planetopia_nodes.Mesh.Peers.{update_peer_last_seen, find_next_hop_to_master}
use planetopia_nodes.Mesh.Sending.{
  send_message, route_to_master, transmit_core, relayed, relay_downlink,
}
use planetopia_nodes.Mesh.Beacons.{check_tofu, check_split, process_master_beacon}
use planetopia_nodes.Mesh.Delivery.{
  is_local, is_uplink, is_rejected_config, deliver, process_adapter_data, process_join_ack,
}
use planetopia_nodes.Mesh.Loop.{admit_message, dispatch, process_entry}
use planetopia_nodes.Mesh.Hops.{sent, addressed, sent-relay_downlink}

abbrev pub AreNoBeacons : List (Mac × MeshMessage) → Type 0
AreNoBeacons [] = Unit {0}
AreNoBeacons ((to, msg) ∷ fs) = (msg.message_type ≢ master_beacon) × AreNoBeacons fs

abbrev Sends : List Effect → Type 0
Sends es = AreNoBeacons (sent es)

if_Sends : (b : Bool) (x y : List Effect) → Sends x → Sends y → Sends (if b then x else y)
if_Sends true x y p q = p
if_Sends false x y p q = q

if_pair_Sends :
    (b : Bool) (x y : Mesh × List Effect) → Sends x.1 → Sends y.1 → Sends (if b then x else y).1
if_pair_Sends true x y p q = p
if_pair_Sends false x y p q = q

quiet_first :
    (b : Bool) (msg : MeshMessage) (es : List Effect)
    → Sends es
    → Sends ((if b then delivers msg ∷ [] else []) ++ es)
unfolding sent
quiet_first true msg es k = k
quiet_first false msg es k = k

nothing_Sends : Sends []
unfolding sent
nothing_Sends = tt

split-Sends : (m : Mesh) (origin : Mac) → Sends (check_split m origin)
unfolding check_split sent
split-Sends m origin = if_Sends _ (fails _ ∷ []) [] tt tt

beacon-Sends :
    (env : Env) (m : Mesh) (msg : MeshMessage) → Sends (process_master_beacon env m msg).1
unfolding process_master_beacon sent
beacon-Sends env m msg = elim (Bool-cases (leb 10 msg.hop_count)) [
  | inl far ↦ rw far tt
  | inr near ↦ rw near (elim (Option-cases (check_tofu env m msg.origin)) [
    | inl e ↦ rw (e, process_master_beacon) tt
    | inr (m', e) ↦ rw e (split-Sends m' msg.origin)
  ])
]

module _ (env : Env) (m : Mesh) (msg : MeshMessage) (plain : msg.message_type ≢ master_beacon) where
  addressed-AreNoBeacons :
      (x : MeshMessage) (ps : List PeerInfo)
      → x.message_type ≡ msg.message_type
      → AreNoBeacons (addressed m.device_mac ps x)
  unfolding addressed
  addressed-AreNoBeacons x [] e = tt
  addressed-AreNoBeacons x (p ∷ ps) e = elim (Bool-cases (bytes_eq p.mac m.device_mac)) [
    | inl self ↦ rw self (addressed-AreNoBeacons x ps e)
    | inr far ↦ rw far (λ b. plain (sym e ∙ b), addressed-AreNoBeacons x ps e)
  ]

  down-Sends : Sends (relay_downlink env m msg)
  down-Sends =
      subst AreNoBeacons (sym (sent-relay_downlink env m msg))
        (elim (Bool-cases (ltb msg.hop_count 10)) [
          | inl near ↦ rw near (
              addressed-AreNoBeacons
                (record msg { hop_count = msg.hop_count + 1; last_hop = m.device_mac }) m.peers
                refl)
          | inr far ↦ rw far tt
        ])

  up-Sends : Sends (route_to_master env m (relayed m msg) adapter_data)
  unfolding route_to_master send_message sent
  up-Sends = elim (Option-cases (find_next_hop_to_master m env.now)) [
    | inl e ↦ rw (e, route_to_master) tt
    | inr (p, e) ↦
        rw (e, route_to_master)
          (if_Sends (not (bytes_eq p.mac m.device_mac)) _ (fails _ ∷ [])
            (if_Sends (bytes_eq p.mac m.device_mac) [] _ tt
              (if_Sends (env.send_ok p.mac _) _ _ (plain, tt) (plain, tt)))
            tt)
  ]

  deliver-Sends : Sends (deliver env m msg)
  unfolding deliver
  deliver-Sends =
      let on =
        (if bytes_eq msg.target broadcast_mac && not m.is_master
          then relay_downlink env m msg
          else []) in
      if_Sends (is_rejected_config env m msg) []
        ((if env.has_recv_callback then delivers msg ∷ [] else []) ++ on) nothing_Sends
        (quiet_first env.has_recv_callback msg on (
          if_Sends (bytes_eq msg.target broadcast_mac && not m.is_master) (relay_downlink env m msg)
            [] down-Sends nothing_Sends))

  data-Sends : Sends (process_adapter_data env m msg).1
  unfolding process_adapter_data transmit_core
  data-Sends =
      let up : Mesh × List Effect = (m, route_to_master env m (relayed m msg) adapter_data) in
      let far : Mesh × List Effect = (m, []) in
      let out : Mesh × List Effect = (m, relay_downlink env m msg) in
      if_pair_Sends (not m.is_master && not (is_local m msg)) _ (m, deliver env m msg)
        (if_pair_Sends (is_uplink m msg) _ out
          (if_pair_Sends (leb 10 msg.hop_count) far up nothing_Sends up-Sends) down-Sends)
        deliver-Sends

  ack-Sends : Sends (process_join_ack env m msg).1
  unfolding process_join_ack
  ack-Sends = elim (Bool-cases (bytes_eq msg.target m.device_mac)) [
    | inl own ↦ subst Sends (sym (own_ack own)) nothing_Sends
    | inr far ↦ rw far down-Sends
  ]
    where
      own_ack : bytes_eq msg.target m.device_mac ≡ true → (process_join_ack env m msg).1 ≡ []
      own_ack e = ground arith

dispatch-Sends :
    (env : Env) (m : Mesh) (msg : MeshMessage) (ty : MeshMessageType)
    → msg.message_type ≡ ty
    → Sends (dispatch env m msg ty).1
unfolding dispatch
dispatch-Sends env m msg enrollment e = nothing_Sends
dispatch-Sends env m msg join_ack e = ack-Sends env m msg (λ b. absurd cc)
dispatch-Sends env m msg master_beacon e = beacon-Sends env m msg
dispatch-Sends env m msg adapter_data e = data-Sends env m msg (λ b. absurd cc)
dispatch-Sends env m msg serial_cmd_broadcast e = nothing_Sends
dispatch-Sends env m msg (other n) e = nothing_Sends

-- The handlers send no beacon.
pub process_entry-AreNoBeacons :
    (env : Env) (m : Mesh) (e : RecvQueueEntry) → AreNoBeacons (sent (process_entry env m e).1)
unfolding process_entry
process_entry-AreNoBeacons env m e =
    let m₁ = (admit_message m e.msg).1 in
    let m₂ = update_peer_last_seen m₁ env.now e.src_mac in
    if_pair_Sends (admit_message m e.msg).0 (dispatch env m₂ e.msg e.msg.message_type) (m₁, [])
      (dispatch-Sends env m₂ e.msg e.msg.message_type refl) nothing_Sends
