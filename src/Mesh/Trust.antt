-- ===== src/Mesh/Trust.antt =====
-- Whom a node takes for its master: trust on first use, rejection, and the hot swap.
use planetopia_nodes.Shared.{
  ◌≤◌, ◌≡◌, refl, sym, subst, ◌≢◌, ◌⊎◌, inl, inr, true, false, not, ◌&&◌, ◌||◌, some, [], arith,
  leb, Bool-cases, Option-cases, elapsed, bytes_eq, bytes_eq→eq,
}
use planetopia_nodes.Mesh.Types.{Mac, MeshMessage, Mesh, Env}
use planetopia_nodes.Mesh.Beacons.{
  from_primary, from_secondary, is_fresh_master, check_tofu, accept_beacon, schedule_relay,
  process_master_beacon,
}

-- While the known master is fresh, a node in single-master mode that has one ignores a beacon of any other origin
-- altogether: neither its state nor the outside sees anything of it.
pub foreign_beacon_ignored :
    (env : Env) (m : Mesh) (msg : MeshMessage)
    → m.tofu.has_master_mac ≡ true
    → m.tofu.dual_master_mode ≡ false
    → msg.origin ≢ m.tofu.known_master_mac
    → is_fresh_master env m ≡ true
    → process_master_beacon env m msg ≡ (m, [])
unfolding process_master_beacon check_tofu
foreign_beacon_ignored env m msg known single foreign fresh =
    let e : bytes_eq msg.origin m.tofu.known_master_mac ≡ false =
      ground (arith, bytes_eq→eq msg.origin m.tofu.known_master_mac) in
    ground arith

tofu-schedule_relay :
    (env : Env) (m : Mesh) (msg : MeshMessage) → (schedule_relay env m msg).tofu ≡ m.tofu
unfolding schedule_relay
tofu-schedule_relay env m msg = ground arith

tofu-accept_beacon :
    (env : Env) (m : Mesh) (msg : MeshMessage) → (accept_beacon env m msg).tofu ≡ m.tofu
unfolding accept_beacon
tofu-accept_beacon env m msg = tofu-schedule_relay env _ msg

-- What the trust check may do to the known master.
abbrev pub MayReplace : Env → Mesh → Mac → Mac → Type 0
MayReplace env m origin mac =
    (mac ≡ m.tofu.known_master_mac)
    ⊎ ((mac ≡ origin) × (9000 ≤ elapsed env.now m.last_master_beacon_received_ms))

check_tofu-MayReplace :
    (env : Env) (m m' : Mesh) (origin : Mac)
    → m.tofu.has_master_mac ≡ true
    → check_tofu env m origin ≡ some m'
    → MayReplace env m origin m'.tofu.known_master_mac
unfolding check_tofu
check_tofu-MayReplace env m m' origin known e = elim (Bool-cases (is_fresh_master env m)) [
  | inl fresh ↦ inl (ground arith)
  | inr stale ↦ elim (Bool-cases (from_primary m.tofu origin || from_secondary m.tofu origin)) [
    | inl old ↦ inl (ground arith)
    | inr new ↦ elim (Bool-cases (m.tofu.dual_master_mode && not m.tofu.has_master_mac_secondary)) [
      | inl second ↦ inl (ground arith)
      | inr swap ↦ inr (ground arith, ground arith)
    ]
  ]
]

-- At a node with a known master, a beacon puts another address in its place only when the node has accepted no
-- beacon for at least the stale threshold of 9 s; the new address is then the beacon's origin.
pub known_master_kept :
    (env : Env) (m : Mesh) (msg : MeshMessage)
    → m.tofu.has_master_mac ≡ true
    → MayReplace env m msg.origin (process_master_beacon env m msg).0.tofu.known_master_mac
unfolding process_master_beacon
known_master_kept env m msg known = elim (Bool-cases (leb 10 msg.hop_count)) [
  | inl far ↦ rw far (inl refl)
  | inr near ↦ rw near (elim (Option-cases (check_tofu env m msg.origin)) [
    | inl e ↦ rw (e, process_master_beacon) (inl refl)
    | inr (m', e) ↦ rw e (
        subst (λ t. MayReplace env m msg.origin t.known_master_mac)
          (sym (tofu-accept_beacon env m' msg)) (check_tofu-MayReplace env m m' msg.origin known e))
  ])
]
