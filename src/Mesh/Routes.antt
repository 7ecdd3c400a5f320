-- ===== src/Mesh/Routes.antt =====
-- The route to the master: what beacons and the timeout do to it, and what is relayed of a beacon.
use planetopia_nodes.Shared.{
  ℕ, ◌+◌, ◌≤◌, ◌<◌, ◌≡◌, sym, subst, ◌≢◌, ◌⊎◌, inl, inr, true, false, some, arith, leb, Bool-cases,
  Option-cases, u32, elapsed, bytes_eq, bytes_eq_iff,
}
use planetopia_nodes.Mesh.Types.{Mac, MeshMessage, MasterInfo, Mesh, Env}
use planetopia_nodes.Mesh.Beacons.{
  from_primary, check_tofu, update_route, is_newer, accept_beacon, schedule_relay,
  process_master_beacon, check_master_timeout,
}

-- No route, or a distance within the hop limit.
abbrev pub IsRoute : MasterInfo → Type 0
IsRoute r = (r.distance ≡ 255) ⊎ ((1 ≤ r.distance) × (r.distance ≤ 10))

update_route-IsRoute :
    (r : MasterInfo) (msg : MeshMessage)
    → msg.hop_count < 10
    → IsRoute r
    → IsRoute (update_route r msg)
unfolding update_route
update_route-IsRoute r msg h v = ground arith

current_master-accept_beacon :
    (env : Env) (m : Mesh) (msg : MeshMessage)
    → (accept_beacon env m msg).current_master ≡ update_route m.current_master msg
unfolding accept_beacon schedule_relay
current_master-accept_beacon env m msg = ground arith

route-check_tofu :
    (env : Env) (m m' : Mesh) (origin : Mac)
    → check_tofu env m origin ≡ some m'
    → (m'.current_master ≡ m.current_master)
      × (m'.last_relayed_epoch ≡ m.last_relayed_epoch)
      × (m'.last_relayed_seq_num ≡ m.last_relayed_seq_num)
      × (m'.is_master ≡ m.is_master)
      × (m'.device_mac ≡ m.device_mac)
unfolding check_tofu
route-check_tofu env m m' origin e =
    (ground arith, ground arith, ground arith, ground arith, ground arith)

-- If a node has no route or one of 1 to 10 hops, then so it is after a beacon.
pub process_master_beacon-IsRoute :
    (env : Env) (m : Mesh) (msg : MeshMessage)
    → IsRoute m.current_master
    → IsRoute (process_master_beacon env m msg).0.current_master
unfolding process_master_beacon
process_master_beacon-IsRoute env m msg v = elim (Bool-cases (leb 10 msg.hop_count)) [
  | inl far ↦ rw far v
  | inr near ↦ rw near (elim (Option-cases (check_tofu env m msg.origin)) [
    | inl e ↦ rw (e, process_master_beacon) v
    | inr (m', e) ↦ rw e (
        subst IsRoute (sym (current_master-accept_beacon env m' msg)) (
          update_route-IsRoute m'.current_master msg (ground arith)
            (subst IsRoute (sym (route-check_tofu env m m' msg.origin e).0) v)))
  ])
]

-- At a node that is not the master and has a route, the timeout clears the route if the last accepted
-- beacon is more than 9 s old, and otherwise changes nothing.
pub check_master_timeout_lem :
    (m : Mesh) (now : ℕ)
    → m.is_master ≡ false
    → m.current_master.distance ≢ 255
    → (9000 < elapsed now m.last_master_beacon_received_ms
        → (check_master_timeout m now).current_master.distance ≡ 255)
      × (elapsed now m.last_master_beacon_received_ms ≤ 9000 → check_master_timeout m now ≡ m)
unfolding check_master_timeout
check_master_timeout_lem m now h k = (λ p. ground arith, λ p. ground arith)

-- At a node that is not the master and has a route to its known master, a beacon of that master
-- below the hop limit by a way no shorter than the route keeps the route with its next hop, and the
-- timeout then does nothing for 9 s.
pub detour_not_taken :
    (env : Env) (m : Mesh) (msg : MeshMessage) (now : ℕ)
    → m.is_master ≡ false
    → from_primary m.tofu msg.origin ≡ true
    → m.current_master.mac ≡ msg.origin
    → m.current_master.distance ≢ 255
    → msg.hop_count < 10
    → m.current_master.distance ≤ msg.hop_count + 1
    → elapsed now env.now ≤ 9000
    → let m' = (process_master_beacon env m msg).0 in
      (m'.current_master ≡ m.current_master) × (check_master_timeout m' now ≡ m')
unfolding process_master_beacon check_tofu accept_beacon schedule_relay update_route
    check_master_timeout
detour_not_taken env m msg now node primary same known near longer soon =
    let e : bytes_eq m.current_master.mac msg.origin ≡ true = (bytes_eq_iff _ _).1 same in
    ground arith

-- A node that is not the master and accepts a beacon newer than the last relayed one, below the hop
-- limit, has a relay pending afterwards: the same beacon with one hop more, at most 10, and this node
-- as the last hop, due 10 to 73 ms later, if the clock does not wrap in that time.
pub relay_scheduled :
    (env : Env) (m : Mesh) (msg : MeshMessage)
    → m.is_master ≡ false
    → is_newer m msg ≡ true
    → msg.hop_count < 10
    → env.now + 73 < u32
    → let r = (accept_beacon env m msg).relay in
      (r.pending ≡ true)
      × (r.msg ≡ record msg { hop_count = msg.hop_count + 1; last_hop = m.device_mac })
      × (r.msg.hop_count ≤ 10)
      × (env.now + 10 ≤ r.due)
      × (r.due ≤ env.now + 73)
unfolding accept_beacon schedule_relay is_newer
relay_scheduled env m msg node newer near clock =
    (ground arith, ground arith, ground arith, ground arith, ground arith)

-- A beacon is scheduled once: its second arrival changes nothing more.
pub schedule_relay_once :
    (env env' : Env) (m : Mesh) (msg : MeshMessage)
    → schedule_relay env' (schedule_relay env m msg) msg ≡ schedule_relay env m msg
unfolding schedule_relay is_newer
schedule_relay_once env env' m msg = ground arith
