-- ===== src/Net/Spread.antt =====
-- What one node sends on behind one frame: at most a copy to each peer, one hop further.
use planetopia_nodes.Shared.{
  ℕ, ◌+◌, ◌≤◌, ◌<◌, ◌≡◌, refl, sym, ap, subst, ◌∙◌, inl, inr, Bool, true, false, not, ◌&&◌, List,
  [], ◌∷◌, ◌++◌, arith, ltb, leb, if◌then◌else◌, Bool-cases, Option-cases, length, bytes_eq,
}
use planetopia_nodes.Mesh.Types.{
  MeshMessageType, adapter_data, master_beacon, enrollment, serial_cmd_broadcast, join_ack, other,
  Mac, MeshMessage, PeerInfo, RecvQueueEntry, Mesh, Effect, fails, delivers, Env, broadcast_mac,
}
use planetopia_nodes.Mesh.Peers.{update_peer_last_seen, find_next_hop_to_master}
use planetopia_nodes.Mesh.Sending.{
  send_message, route_to_master, transmit_core, relayed, relay_downlink,
}
use planetopia_nodes.Mesh.Beacons.{check_split, check_tofu, process_master_beacon}
use planetopia_nodes.Mesh.Delivery.{
  is_local, is_uplink, is_rejected_config, deliver, process_adapter_data, process_join_ack,
}
use planetopia_nodes.Mesh.Loop.{admit_message, dispatch, process_entry}
use planetopia_nodes.Mesh.PeerLaws.{length-update_peer}
use planetopia_nodes.Mesh.Hops.{sent, addressed, sent-relay_downlink}

-- Every message has made one hop more than h.
abbrev pub AreNext : ℕ → List (Mac × MeshMessage) → Type 0
AreNext h [] = Unit {0}
AreNext h ((to, msg) ∷ fs) = (msg.hop_count ≡ h + 1) × AreNext h fs

-- At most n copies, none at the hop limit.
pub record IsSpread (h n : ℕ) (fs : List (Mac × MeshMessage)) : Type 0 where
  pub few : length fs ≤ n
  pub next : AreNext h fs
  pub stops : 10 ≤ h → fs ≡ []

none-IsSpread : (h n : ℕ) → IsSpread h n []
none-IsSpread h n = record { few = omega arith; next = tt; stops = λ p. refl }

length-addressed :
    (d : Mac) (ps : List PeerInfo) (msg : MeshMessage) → length (addressed d ps msg) ≤ length ps
unfolding addressed
length-addressed d [] msg = omega arith
length-addressed d (p ∷ ps) msg = ground (arith, length-addressed d ps msg)

addressed-AreNext :
    (h : ℕ) (d : Mac) (ps : List PeerInfo) (msg : MeshMessage)
    → msg.hop_count ≡ h + 1
    → AreNext h (addressed d ps msg)
unfolding addressed
addressed-AreNext h d [] msg e = tt
addressed-AreNext h d (p ∷ ps) msg e = elim (Bool-cases (bytes_eq p.mac d)) [
  | inl self ↦ rw self (addressed-AreNext h d ps msg e)
  | inr far ↦ rw far (e, addressed-AreNext h d ps msg e)
]

downlink-IsSpread :
    (env : Env) (m : Mesh) (msg : MeshMessage)
    → IsSpread msg.hop_count (length m.peers) (sent (relay_downlink env m msg))
downlink-IsSpread env m msg =
    subst (IsSpread msg.hop_count (length m.peers)) (sym (sent-relay_downlink env m msg))
      (elim (Bool-cases (ltb msg.hop_count 10)) [
        | inl near ↦ rw near (record {
          few =
              length-addressed m.device_mac m.peers
                (record msg { hop_count = msg.hop_count + 1; last_hop = m.device_mac });
          next =
              addressed-AreNext msg.hop_count m.device_mac m.peers
                (record msg { hop_count = msg.hop_count + 1; last_hop = m.device_mac }) refl;
          stops = λ p. absurd (ground arith);
        })
        | inr far ↦ rw far (none-IsSpread msg.hop_count (length m.peers))
      ])

-- The route to the master takes one copy at most.
AreOne : MeshMessage → List (Mac × MeshMessage) → Type 0
AreOne msg [] = Unit {0}
AreOne msg ((to, x) ∷ fs) = (x.hop_count ≡ msg.hop_count) × (fs ≡ [])

uplink-AreOne :
    (env : Env) (m : Mesh) (msg : MeshMessage)
    → AreOne msg (sent (route_to_master env m msg adapter_data))
unfolding route_to_master send_message sent AreOne
uplink-AreOne env m msg = elim (Option-cases (find_next_hop_to_master m env.now)) [
  | inl e ↦ rw (e, route_to_master) tt
  | inr (p, e) ↦ rw (e, route_to_master) (ground arith)
]

IsSpread-le :
    (h n : ℕ) (fs : List (Mac × MeshMessage)) → n ≤ 10 → IsSpread h n fs → IsSpread h 10 fs
IsSpread-le h n fs le k = record { few = omega (arith, k.few); next = k.next; stops = k.stops }

uplink-IsSpread :
    (env : Env) (m : Mesh) (msg : MeshMessage)
    → msg.hop_count < 10
    → IsSpread msg.hop_count 10 (sent (route_to_master env m (relayed m msg) adapter_data))
uplink-IsSpread env m msg near = spread _ (uplink-AreOne env m (relayed m msg))
  where
    spread :
        (fs : List (Mac × MeshMessage)) → AreOne (relayed m msg) fs → IsSpread msg.hop_count 10 fs
    spread [] k = none-IsSpread msg.hop_count 10
    spread ((to, x) ∷ fs) k =
        unfold AreOne in
        record {
          few = omega (arith, ap length k.1);
          next = (k.0 ∙ omega arith, subst (AreNext msg.hop_count) (sym k.1) tt);
          stops = λ p. absurd (omega arith);
        }

abbrev Spreads : ℕ → List Effect → Type 0
Spreads h es = IsSpread h 10 (sent es)

if_Spreads :
    (h : ℕ) (b : Bool) (x y : List Effect)
    → (b ≡ true → Spreads h x)
    → (b ≡ false → Spreads h y)
    → Spreads h (if b then x else y)
if_Spreads h true x y p q = p refl
if_Spreads h false x y p q = q refl

if_pair_Spreads :
    (h : ℕ) (b : Bool) (x y : Mesh × List Effect)
    → (b ≡ true → Spreads h x.1)
    → (b ≡ false → Spreads h y.1)
    → Spreads h (if b then x else y).1
if_pair_Spreads h true x y p q = p refl
if_pair_Spreads h false x y p q = q refl

-- What is handed over first sends nothing.
quiet_first :
    (h : ℕ) (b : Bool) (msg : MeshMessage) (es : List Effect)
    → Spreads h es
    → Spreads h ((if b then delivers msg ∷ [] else []) ++ es)
unfolding sent
quiet_first h true msg es k = k
quiet_first h false msg es k = k

split-IsSpread : (m : Mesh) (origin : Mac) (h : ℕ) → IsSpread h 10 (sent (check_split m origin))
unfolding check_split sent
split-IsSpread m origin h =
    if_Spreads h _ (fails _ ∷ []) [] (λ e. none-IsSpread h 10) (λ e. none-IsSpread h 10)

beacon-IsSpread :
    (env : Env) (m : Mesh) (msg : MeshMessage)
    → IsSpread msg.hop_count 10 (sent (process_master_beacon env m msg).1)
unfolding process_master_beacon sent
beacon-IsSpread env m msg = elim (Bool-cases (leb 10 msg.hop_count)) [
  | inl far ↦ rw far (none-IsSpread msg.hop_count 10)
  | inr near ↦ rw near (elim (Option-cases (check_tofu env m msg.origin)) [
    | inl e ↦ rw (e, process_master_beacon) (none-IsSpread msg.hop_count 10)
    | inr (m', e) ↦ rw e (split-IsSpread m' msg.origin msg.hop_count)
  ])
]

module _ (env : Env) (m : Mesh) (msg : MeshMessage) (room : length m.peers ≤ 10) where
  down : IsSpread msg.hop_count 10 (sent (relay_downlink env m msg))
  down = IsSpread-le msg.hop_count (length m.peers) _ room (downlink-IsSpread env m msg)

  quiet : Spreads msg.hop_count []
  unfolding sent
  quiet = none-IsSpread msg.hop_count 10

  deliver-IsSpread : Spreads msg.hop_count (deliver env m msg)
  unfolding deliver
  deliver-IsSpread =
      let h = msg.hop_count in
      let on =
        (if bytes_eq msg.target broadcast_mac && not m.is_master
          then relay_downlink env m msg
          else []) in
      let first = ((if env.has_recv_callback then delivers msg ∷ [] else []) ++ on) in
      if_Spreads h (is_rejected_config env m msg) [] first (λ e. quiet)
        (λ e. quiet_first h env.has_recv_callback msg on (
          if_Spreads h (bytes_eq msg.target broadcast_mac && not m.is_master)
            (relay_downlink env m msg) [] (λ e. down) (λ e. quiet)))

  data-IsSpread : Spreads msg.hop_count (process_adapter_data env m msg).1
  unfolding process_adapter_data transmit_core
  data-IsSpread =
      let h = msg.hop_count in
      let up : Mesh × List Effect = (m, route_to_master env m (relayed m msg) adapter_data) in
      let far : Mesh × List Effect = (m, []) in
      let out : Mesh × List Effect = (m, relay_downlink env m msg) in
      if_pair_Spreads h (not m.is_master && not (is_local m msg)) _ (m, deliver env m msg)
        (λ e.
          if_pair_Spreads h (is_uplink m msg) _ out
            (λ e.
              if_pair_Spreads h (leb 10 msg.hop_count) far up (λ e. quiet)
                (λ e. uplink-IsSpread env m msg (ground arith)))
            (λ e. down))
        (λ e. deliver-IsSpread)

  own_ack : bytes_eq msg.target m.device_mac ≡ true → (process_join_ack env m msg).1 ≡ []
  unfolding process_join_ack
  own_ack e = ground arith

  ack-IsSpread : Spreads msg.hop_count (process_join_ack env m msg).1
  unfolding process_join_ack
  ack-IsSpread = elim (Bool-cases (bytes_eq msg.target m.device_mac)) [
    | inl own ↦ subst (Spreads msg.hop_count) (sym (own_ack own)) quiet
    | inr far ↦ rw far down
  ]

  dispatch-IsSpread : (ty : MeshMessageType) → Spreads msg.hop_count (dispatch env m msg ty).1
  unfolding dispatch
  dispatch-IsSpread enrollment = quiet
  dispatch-IsSpread join_ack = ack-IsSpread
  dispatch-IsSpread master_beacon = beacon-IsSpread env m msg
  dispatch-IsSpread adapter_data = data-IsSpread
  dispatch-IsSpread serial_cmd_broadcast = quiet
  dispatch-IsSpread (other n) = quiet

-- The number of peers that a handler leaves.
abbrev pub AreKept : Mesh → Mesh → Type 0
AreKept m m' = length m'.peers ≡ length m.peers

pub admit-AreKept : (m : Mesh) (msg : MeshMessage) → AreKept m (admit_message m msg).1
unfolding admit_message
admit-AreKept m msg = ground arith

pub last_seen-AreKept :
    (m : Mesh) (now : ℕ) (mac : Mac) → AreKept m (update_peer_last_seen m now mac)
unfolding update_peer_last_seen
last_seen-AreKept m now mac =
    ground (arith, length-update_peer (λ p. record p { last_seen_millis = now }) m.peers mac)

-- What any handler sends behind an entry of the ring.
pub process_entry-IsSpread :
    (env : Env) (m : Mesh) (e : RecvQueueEntry)
    → length m.peers ≤ 10
    → IsSpread e.msg.hop_count 10 (sent (process_entry env m e).1)
unfolding process_entry sent
process_entry-IsSpread env m e room =
    let m₁ = (admit_message m e.msg).1 in
    let m₂ = update_peer_last_seen m₁ env.now e.src_mac in
    if_pair_Spreads e.msg.hop_count (admit_message m e.msg).0
      (dispatch env m₂ e.msg e.msg.message_type) (m₁, [])
      (λ ok.
        dispatch-IsSpread env m₂ e.msg
          (omega (arith, admit-AreKept m e.msg, last_seen-AreKept m₁ env.now e.src_mac))
          e.msg.message_type)
      (λ bad. none-IsSpread e.msg.hop_count 10)
