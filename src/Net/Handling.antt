-- ===== src/Net/Handling.antt =====
-- What a node takes over from a message.
use planetopia_nodes.Shared.{
  ℕ, ◌≡◌, refl, sym, ap, ◌∙◌, ◌⊎◌, inl, inr, true, false, not, ◌||◌, some, arith, ltb, leb, ◌==◌,
  Bool-cases, Option-cases, bytes_eq,
}
use planetopia_nodes.Mesh.Types.{
  MeshMessageType, adapter_data, master_beacon, enrollment, serial_cmd_broadcast, join_ack, other,
  Mac, MasterInfo, MeshMessage, RecvQueueEntry, Mesh, Env,
}
use planetopia_nodes.Mesh.Peers.{update_peer_last_seen}
use planetopia_nodes.Mesh.Sending.{transmit_core}
use planetopia_nodes.Mesh.Beacons.{
  check_tofu, accept_beacon, schedule_relay, new_distance, update_route, process_master_beacon,
}
use planetopia_nodes.Mesh.Delivery.{
  process_adapter_data, process_enrollment_request, process_join_ack,
}
use planetopia_nodes.Mesh.Loop.{admit_message, dispatch, process_entry}

-- The address, the role and the route stay, and so does the pending relay.
pub record IsAlike (m m' : Mesh) : Type 0 where
  pub device : m'.device_mac ≡ m.device_mac
  pub role : m'.is_master ≡ m.is_master
  pub route : m'.current_master ≡ m.current_master
  pub relay : m'.relay ≡ m.relay

pub IsAlike-trans : {l m n : Mesh} → IsAlike l m → IsAlike m n → IsAlike l n
IsAlike-trans a b = record {
  device = b.device ∙ a.device;
  role = b.role ∙ a.role;
  route = b.route ∙ a.route;
  relay = b.relay ∙ a.relay;
}

admit-IsAlike : (m : Mesh) (msg : MeshMessage) → IsAlike m (admit_message m msg).1
unfolding admit_message
admit-IsAlike m msg = record {
  device = ground arith;
  role = ground arith;
  route = ground arith;
  relay = ground arith;
}

last_seen-IsAlike : (m : Mesh) (now : ℕ) (mac : Mac) → IsAlike m (update_peer_last_seen m now mac)
unfolding update_peer_last_seen
last_seen-IsAlike m now mac = record {
  device = ground arith;
  role = ground arith;
  route = ground arith;
  relay = ground arith;
}

tofu-IsAlike :
    (env : Env) (m m' : Mesh) (origin : Mac) → check_tofu env m origin ≡ some m' → IsAlike m m'
unfolding check_tofu
tofu-IsAlike env m m' origin e = record {
  device = ground arith;
  role = ground arith;
  route = ground arith;
  relay = ground arith;
}

request-IsAlike : (m : Mesh) (msg : MeshMessage) → IsAlike m (process_enrollment_request m msg)
unfolding process_enrollment_request
request-IsAlike m msg = record {
  device = ground arith;
  role = ground arith;
  route = ground arith;
  relay = ground arith;
}

ack-IsAlike : (env : Env) (m : Mesh) (msg : MeshMessage) → IsAlike m (process_join_ack env m msg).0
unfolding process_join_ack
ack-IsAlike env m msg = record {
  device = ground arith;
  role = ground arith;
  route = ground arith;
  relay = ground arith;
}

data-IsAlike :
    (env : Env) (m : Mesh) (msg : MeshMessage) → IsAlike m (process_adapter_data env m msg).0
unfolding process_adapter_data transmit_core
data-IsAlike env m msg = record {
  device = ground arith;
  role = ground arith;
  route = ground arith;
  relay = ground arith;
}

-- What a message may change: a beacon the route, whose next hop is then its last hop, and at nodes that
-- are no masters the pending relay.
pub record IsChange (msg : MeshMessage) (m m' : Mesh) : Type 0 where
  pub device : m'.device_mac ≡ m.device_mac
  pub role : m'.is_master ≡ m.is_master
  pub route :
      (m'.current_master ≡ m.current_master)
      ⊎ ((msg.message_type ≡ master_beacon) × (m'.current_master.next_hop ≡ msg.last_hop))
  pub relay : (m'.relay ≡ m.relay) ⊎ (m.is_master ≡ false)

unchanged : (msg : MeshMessage) {m m' : Mesh} → IsAlike m m' → IsChange msg m m'
unchanged msg a = record {
  device = a.device;
  role = a.role;
  route = inl a.route;
  relay = inl a.relay;
}

behind_alike :
    (msg : MeshMessage) {l m n : Mesh} → IsAlike l m → IsChange msg m n → IsChange msg l n
behind_alike msg a c = record {
  device = c.device ∙ a.device;
  role = c.role ∙ a.role;
  route = elim c.route [ inl e ↦ inl (e ∙ a.route) | inr e ↦ inr e ];
  relay = elim c.relay [ inl e ↦ inl (e ∙ a.relay) | inr e ↦ inr (sym a.role ∙ e) ];
}

route-accept_beacon :
    (env : Env) (m : Mesh) (msg : MeshMessage)
    → (accept_beacon env m msg).current_master ≡ update_route m.current_master msg
unfolding accept_beacon schedule_relay
route-accept_beacon env m msg = ground arith

relay-accept_beacon :
    (env : Env) (m : Mesh) (msg : MeshMessage)
    → m.is_master ≡ true
    → (accept_beacon env m msg).relay ≡ m.relay
unfolding accept_beacon schedule_relay
relay-accept_beacon env m msg top = ground arith

next_hop-update_route :
    (r : MasterInfo) (msg : MeshMessage)
    → (update_route r msg ≡ r) ⊎ ((update_route r msg).next_hop ≡ msg.last_hop)
unfolding update_route
next_hop-update_route r msg =
    elim (Bool-cases (
      (r.distance == 255)
      || not (bytes_eq r.mac msg.origin)
      || ltb (new_distance msg) r.distance)) [
        | inl better ↦ rw better (inr refl)
        | inr same ↦ rw same (inl refl)
      ]

accept-IsChange :
    (env : Env) (m : Mesh) (msg : MeshMessage)
    → msg.message_type ≡ master_beacon
    → IsChange msg m (accept_beacon env m msg)
unfolding accept_beacon schedule_relay
accept-IsChange env m msg b = record {
  device = ground arith;
  role = ground arith;
  route = elim (next_hop-update_route m.current_master msg) [
    | inl e ↦ inl (route-accept_beacon env m msg ∙ e)
    | inr e ↦ inr (b, ap (λ (r : MasterInfo). r.next_hop) (route-accept_beacon env m msg) ∙ e)
  ];
  relay = elim (Bool-cases m.is_master) [
    | inl top ↦ inl (relay-accept_beacon env m msg top)
    | inr plain ↦ inr plain
  ];
}

IsAlike-refl : (m : Mesh) → IsAlike m m
IsAlike-refl m = record { device = refl; role = refl; route = refl; relay = refl }

beacon-IsChange :
    (env : Env) (m : Mesh) (msg : MeshMessage)
    → msg.message_type ≡ master_beacon
    → IsChange msg m (process_master_beacon env m msg).0
unfolding process_master_beacon
beacon-IsChange env m msg b = elim (Bool-cases (leb 10 msg.hop_count)) [
  | inl far ↦ rw far (unchanged msg (IsAlike-refl m))
  | inr near ↦ rw near (elim (Option-cases (check_tofu env m msg.origin)) [
    | inl e ↦ rw (e, process_master_beacon) (unchanged msg (IsAlike-refl m))
    | inr (m', e) ↦
        rw e (behind_alike msg (tofu-IsAlike env m m' msg.origin e) (accept-IsChange env m' msg b))
  ])
]

dispatch-IsChange :
    (env : Env) (m : Mesh) (msg : MeshMessage) (ty : MeshMessageType)
    → msg.message_type ≡ ty
    → IsChange msg m (dispatch env m msg ty).0
unfolding dispatch
dispatch-IsChange env m msg enrollment e = unchanged msg (request-IsAlike m msg)
dispatch-IsChange env m msg join_ack e = unchanged msg (ack-IsAlike env m msg)
dispatch-IsChange env m msg master_beacon e = beacon-IsChange env m msg e
dispatch-IsChange env m msg adapter_data e = unchanged msg (data-IsAlike env m msg)
dispatch-IsChange env m msg serial_cmd_broadcast e = unchanged msg (IsAlike-refl m)
dispatch-IsChange env m msg (other n) e = unchanged msg (IsAlike-refl m)

pub process_entry-IsChange :
    (env : Env) (m : Mesh) (e : RecvQueueEntry) → IsChange e.msg m (process_entry env m e).0
unfolding process_entry
process_entry-IsChange env m e = elim (Bool-cases (admit_message m e.msg).0) [
  | inl ok ↦ rw ok (
      behind_alike e.msg
        (IsAlike-trans (admit-IsAlike m e.msg)
          (last_seen-IsAlike (admit_message m e.msg).1 env.now e.src_mac))
        (dispatch-IsChange env _ e.msg e.msg.message_type refl))
  | inr bad ↦ rw bad (unchanged e.msg (admit-IsAlike m e.msg))
]
