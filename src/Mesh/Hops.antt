-- ===== src/Mesh/Hops.antt =====
-- To whom a node sends, and what it lets through: recipients, the hop limit, delivery and relaying.
use planetopia_nodes.Shared.{
  ℕ, ◌+◌, ◌%◌, ◌≡◌, refl, sym, ap, ap₂, subst, ◌∙◌, ◌≢◌, inl, inr, true, false, not, ◌&&◌, some,
  List, [], ◌∷◌, ◌++◌, arith, ltb, leb, if◌then◌else◌, Bool-cases, Option-cases, bytes_eq,
  bytes_eq→eq,
}
use planetopia_nodes.Mesh.Types.{
  Mac, MeshMessageType, master_beacon, MeshMessage, PeerInfo, Mesh, Effect, sends, fails, delivers,
  relays_enrollment, Env,
}
use planetopia_nodes.Mesh.Peers.{is_peer_in_range, next_hop_in, find_next_hop_to_master}
use planetopia_nodes.Mesh.Sending.{
  send_message, send_to_each, route_to_master, relayed, relay_downlink, transmit_core,
}
use planetopia_nodes.Mesh.Loop.{dispatch_relay}

-- The frames that leave the node, and the messages handed to its adapter.
unfoldable pub sent : List Effect → List (Mac × MeshMessage)
sent [] = []
sent (sends to msg ∷ es) = (to, msg) ∷ sent es
sent (_ ∷ es) = sent es

unfoldable pub delivered : List Effect → List MeshMessage
delivered [] = []
delivered (delivers msg ∷ es) = msg ∷ delivered es
delivered (_ ∷ es) = delivered es

pub sent-append : (xs ys : List Effect) → sent (xs ++ ys) ≡ sent xs ++ sent ys
unfolding sent
sent-append [] ys = refl
sent-append (sends to msg ∷ xs) ys = ap (λ l. (to, msg) ∷ l) (sent-append xs ys)
sent-append (fails f ∷ xs) ys = sent-append xs ys
sent-append (delivers msg ∷ xs) ys = sent-append xs ys
sent-append (relays_enrollment mac key ∷ xs) ys = sent-append xs ys

-- Every peer but the node itself, with the message.
unfoldable pub addressed : Mac → List PeerInfo → MeshMessage → List (Mac × MeshMessage)
addressed device [] msg = []
addressed device (p ∷ ps) msg =
    if bytes_eq p.mac device
    then addressed device ps msg
    else (p.mac, msg) ∷ addressed device ps msg

sent-send_message :
    (env : Env) (device to : Mac) (msg : MeshMessage)
    → sent (send_message env device to msg) ≡ (if bytes_eq to device then [] else (to, msg) ∷ [])
unfolding sent send_message
sent-send_message env device to msg = ground arith

sent_other :
    (env : Env) (device to : Mac) (msg : MeshMessage)
    → bytes_eq to device ≡ false
    → sent (send_message env device to msg) ≡ (to, msg) ∷ []
sent_other env device to msg h = sent-send_message env device to msg ∙ rw h refl

-- A loop over the peers sends one copy to each peer in order, and none to the node itself; a failed
-- send does not stop it.
pub sent-send_to_each :
    (env : Env) (device : Mac) (ps : List PeerInfo) (msg : MeshMessage)
    → sent (send_to_each env device ps msg) ≡ addressed device ps msg
unfolding sent send_to_each addressed
sent-send_to_each env device [] msg = refl
sent-send_to_each env device (p ∷ ps) msg = elim (Bool-cases (bytes_eq p.mac device)) [
  | inl self ↦ rw self (sent-send_to_each env device ps msg)
  | inr other ↦ rw other (
      sent-append (send_message env device p.mac msg) (send_to_each env device ps msg)
      ∙ ap₂ (λ a b. a ++ b) (sent_other env device p.mac msg other)
          (sent-send_to_each env device ps msg))
]

-- A relayed message goes to every peer but the node itself with one hop more and the node as last
-- hop; one at the hop limit goes nowhere.
pub sent-relay_downlink :
    (env : Env) (m : Mesh) (msg : MeshMessage)
    → sent (relay_downlink env m msg) ≡ (
        if ltb msg.hop_count 10
        then addressed m.device_mac m.peers
            (record msg { hop_count = msg.hop_count + 1; last_hop = m.device_mac })
        else [])
unfolding relay_downlink sent
sent-relay_downlink env m msg = elim (Bool-cases (leb 10 msg.hop_count)) [
  | inl far ↦ rw far (ground arith)
  | inr near ↦ rw near (
      sent-send_to_each env m.device_mac m.peers (relayed m msg)
      ∙ ground (
        arith,
        ap
            (λ k.
              addressed m.device_mac m.peers
                (record msg { hop_count = k; last_hop = m.device_mac }))
            (wrapless near),
      ))
]
  where
    wrapless : leb 10 msg.hop_count ≡ false → (msg.hop_count + 1) % 256 ≡ msg.hop_count + 1
    wrapless h = ground arith

-- What the search for the next hop finds.
next_hop_in_lem :
    (all : List PeerInfo) (now : ℕ) (hop device : Mac) (ps : List PeerInfo) (p : PeerInfo)
    → next_hop_in all now hop device ps ≡ some p
    → (p.mac ≡ hop) × (is_peer_in_range all now p.mac ≡ true) × (bytes_eq p.mac device ≡ false)
unfolding next_hop_in
next_hop_in_lem all now hop device [] p e = cc
next_hop_in_lem all now hop device (q ∷ ps) p e =
    elim (Bool-cases
      (bytes_eq q.mac hop && is_peer_in_range all now q.mac && not (bytes_eq q.mac device))) [
        | inl found ↦
            let same : q ≡ p = ground arith in
            subst
              (λ r.
                (r.mac ≡ hop)
                × (is_peer_in_range all now r.mac ≡ true)
                × (bytes_eq r.mac device ≡ false))
              same (bytes_eq→eq q.mac hop (ground arith), ground arith, ground arith)
        | inr missed ↦ next_hop_in_lem all now hop device ps p (ground arith)
      ]

-- The next hop is the one of the route, was heard from within the threshold, and is not the node.
pub find_next_hop_to_master_lem :
    (m : Mesh) (now : ℕ) (p : PeerInfo)
    → find_next_hop_to_master m now ≡ some p
    → (m.current_master.distance ≢ 255)
      × (p.mac ≡ m.current_master.next_hop)
      × (is_peer_in_range m.peers now p.mac ≡ true)
      × (bytes_eq p.mac m.device_mac ≡ false)
unfolding find_next_hop_to_master
find_next_hop_to_master_lem m now p e =
    let (a, b, c) =
      next_hop_in_lem m.peers now m.current_master.next_hop m.device_mac m.peers p (ground arith) in
    (ground arith, a, b, c)

-- At most one frame, to the next hop of the route.
abbrev pub OnlyUpstream : Mesh → List (Mac × MeshMessage) → Type 0
OnlyUpstream m [] = Unit {0}
OnlyUpstream m ((to, msg) ∷ fs) = (to ≡ m.current_master.next_hop) × (fs ≡ [])

pub route_to_master-OnlyUpstream :
    (env : Env) (m : Mesh) (msg : MeshMessage) (ty : MeshMessageType)
    → OnlyUpstream m (sent (route_to_master env m msg ty))
unfolding route_to_master sent
route_to_master-OnlyUpstream env m msg ty =
    elim (Option-cases (find_next_hop_to_master m env.now)) [
      | inl e ↦ rw (e, route_to_master) tt
      | inr (p, e) ↦
          let (far, hop, range, other) = find_next_hop_to_master_lem m env.now p e in
          rw (e, route_to_master, other)
            (subst (OnlyUpstream m) (sym (sent-send_message env m.device_mac p.mac _))
              (rw other (hop, refl)))
    ]

-- The deferred relay of a beacon is one frame at most, and that goes to the next hop towards the
-- master: no other peer is sent the beacon.
pub beacon_relay_upstream : (env : Env) (m : Mesh) → OnlyUpstream m (sent (dispatch_relay env m).1)
unfolding dispatch_relay transmit_core sent
beacon_relay_upstream env m = elim (Bool-cases (m.relay.pending && leb m.relay.due env.now)) [
  | inl due ↦ rw due (
      route_to_master-OnlyUpstream env
        (let r = m.relay in record m { relay = record r { pending = false } }) m.relay.msg
        master_beacon)
  | inr early ↦ rw early tt
]
