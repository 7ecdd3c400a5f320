-- ===== src/Mesh/AdapterData.antt =====
-- What processAdapterData does with a message, by the message's target and the node's role.
use planetopia_nodes.Shared.{
  ◌≡◌, refl, ap, ap₂, ◌∙◌, inl, inr, Bool, true, false, not, ◌&&◌, ◌||◌, List, [], ◌∷◌, ◌++◌, arith,
  leb, if◌then◌else◌, Bool-cases, Option-cases, bytes_eq,
}
use planetopia_nodes.Mesh.Types.{
  Mac, MeshMessageType, adapter_data, MeshMessage, PeerInfo, Mesh, Effect, delivers, Env,
  broadcast_mac,
}
use planetopia_nodes.Mesh.Peers.{find_next_hop_to_master}
use planetopia_nodes.Mesh.Sending.{
  send_message, send_to_each, route_to_master, relayed, relay_downlink, transmit_core,
}
use planetopia_nodes.Mesh.Delivery.{
  is_local, is_uplink, is_rejected_config, deliver, process_adapter_data,
}
use planetopia_nodes.Mesh.Hops.{delivered}

delivered-append : (xs ys : List Effect) → delivered (xs ++ ys) ≡ delivered xs ++ delivered ys
unfolding delivered
delivered-append [] ys = refl
delivered-append (delivers msg ∷ xs) ys = ap (λ l. msg ∷ l) (delivered-append xs ys)
delivered-append (Effect.sends to msg ∷ xs) ys = delivered-append xs ys
delivered-append (Effect.fails f ∷ xs) ys = delivered-append xs ys
delivered-append (Effect.relays_enrollment mac key ∷ xs) ys = delivered-append xs ys

-- Sending delivers nothing at the node that sends.
delivered-send_message :
    (env : Env) (device to : Mac) (msg : MeshMessage)
    → delivered (send_message env device to msg) ≡ []
unfolding delivered send_message
delivered-send_message env device to msg = ground arith

delivered-send_to_each :
    (env : Env) (device : Mac) (ps : List PeerInfo) (msg : MeshMessage)
    → delivered (send_to_each env device ps msg) ≡ []
unfolding delivered send_to_each
delivered-send_to_each env device [] msg = refl
delivered-send_to_each env device (p ∷ ps) msg = elim (Bool-cases (bytes_eq p.mac device)) [
  | inl self ↦ rw self (delivered-send_to_each env device ps msg)
  | inr other ↦ rw other (
      delivered-append (send_message env device p.mac msg) (send_to_each env device ps msg)
      ∙ ap₂ (λ a b. a ++ b) (delivered-send_message env device p.mac msg)
          (delivered-send_to_each env device ps msg))
]

delivered-relay_downlink :
    (env : Env) (m : Mesh) (msg : MeshMessage) → delivered (relay_downlink env m msg) ≡ []
unfolding relay_downlink delivered
delivered-relay_downlink env m msg = elim (Bool-cases (leb 10 msg.hop_count)) [
  | inl far ↦ rw far refl
  | inr near ↦ rw near (delivered-send_to_each env m.device_mac m.peers (relayed m msg))
]

delivered-route_to_master :
    (env : Env) (m : Mesh) (msg : MeshMessage) (ty : MeshMessageType)
    → delivered (route_to_master env m msg ty) ≡ []
unfolding route_to_master delivered
delivered-route_to_master env m msg ty = elim (Option-cases (find_next_hop_to_master m env.now)) [
  | inl e ↦ rw (e, route_to_master) refl
  | inr (p, e) ↦ elim (Bool-cases (bytes_eq p.mac m.device_mac)) [
    | inl self ↦ rw (e, route_to_master, self) refl
    | inr other ↦ rw (e, route_to_master, other) (delivered-send_message env m.device_mac p.mac _)
  ]
]

-- Whether a message is for this node and passes the check of its sender.
abbrev pub is_taken : Env → Mesh → MeshMessage → Bool
is_taken env m msg =
    (m.is_master || is_local m msg) && not (is_rejected_config env m msg) && env.has_recv_callback

delivered-deliver :
    (env : Env) (m : Mesh) (msg : MeshMessage)
    → delivered (deliver env m msg)
      ≡ (if not (is_rejected_config env m msg) && env.has_recv_callback then msg ∷ [] else [])
unfolding deliver delivered
delivered-deliver env m msg = elim (Bool-cases (is_rejected_config env m msg)) [
  | inl bad ↦ rw bad refl
  | inr good ↦ elim (Bool-cases (bytes_eq msg.target broadcast_mac && not m.is_master)) [
    | inl on ↦
        rw (good, on)
          (delivered-append (if env.has_recv_callback then delivers msg ∷ [] else [])
              (relay_downlink env m msg)
            ∙ ap (λ l. delivered (if env.has_recv_callback then delivers msg ∷ [] else []) ++ l)
                (delivered-relay_downlink env m msg)
            ∙ ground arith)
    | inr off ↦ rw (good, off) (ground arith)
  ]
]

-- Adapter data reaches the node's adapter exactly once if the node is the master or the target is the
-- node or the broadcast address, the message is not a CONFIG_SET of another sender than the known
-- master, if one is known, and a callback is set; otherwise it does not reach it.
pub delivered-process_adapter_data :
    (env : Env) (m : Mesh) (msg : MeshMessage)
    → delivered (process_adapter_data env m msg).1 ≡ (if is_taken env m msg then msg ∷ [] else [])
unfolding process_adapter_data delivered transmit_core
delivered-process_adapter_data env m msg = elim (Bool-cases (m.is_master || is_local m msg)) [
  | inl here ↦
      let e : not m.is_master && not (is_local m msg) ≡ false = ground arith in
      rw (e, here) (delivered-deliver env m msg)
  | inr away ↦
      let e : not m.is_master && not (is_local m msg) ≡ true = ground arith in
      rw (e, away)
        (elim (Bool-cases (is_uplink m msg)) [
          | inl up ↦ elim (Bool-cases (leb 10 msg.hop_count)) [
            | inl far ↦ rw (up, far) refl
            | inr near ↦
                rw (up, near) (delivered-route_to_master env m (relayed m msg) adapter_data)
          ]
          | inr down ↦ rw down (delivered-relay_downlink env m msg)
        ])
]
