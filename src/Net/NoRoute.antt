-- ===== src/Net/NoRoute.antt =====
-- No run takes a route to a node that does not hear the master itself.
use planetopia_nodes.Shared.{
  ℕ, ◌≡◌, sym, subst, false, Option, none, some, List, [], ◌∷◌, ◌++◌, bytes_eq,
}
use planetopia_nodes.Mesh.Types.{Mac, Env, broadcast_mac}
use planetopia_nodes.Mesh.Peers.{find_next_hop_to_master}
use planetopia_nodes.Net.Air.{Frame, Station, Net}
use planetopia_nodes.Net.Flood.{at_one, some_hear}
use planetopia_nodes.Net.Rounds.{no_hop}
use planetopia_nodes.Net.Range.{
  Range, AreInRange, Step, hears_frame, loops, Runs, stays, goes, AreFresh,
}
use planetopia_nodes.Net.Settled.{
  IsStraight, IsPlaced, AreSettled, IsNear, AreNear, AreNear-append, settled,
}
use planetopia_nodes.Net.Unreached.{hears-IsDone, loop-IsSettled}
use planetopia_nodes.Net.Lost.{
  IsQuiet, loop-AreNear, nodes-append, replaced, nth_node, frame_taken_out, fresh-AreSettled,
}

module _ (reach : Range) (master : Mac) (unicast : bytes_eq master broadcast_mac ≡ false) where
  abbrev Quiet : Net → Type 0
  Quiet n = IsQuiet reach master n

  heard_by :
      (f : Frame) (vs : List (Option Env)) (ss : List Station)
      → IsNear reach master f
      → AreSettled reach master ss
      → AreInRange reach f vs ss
      → Quiet (some_hear vs f ss)
  unfolding some_hear at_one
  heard_by f vs [] near k r = record { stations = tt; air = tt }
  heard_by f [] (s ∷ ss) near (k, ks) r =
      let rest = heard_by f [] ss near ks tt in
      record { stations = (k, rest.stations); air = rest.air }
  heard_by f (none ∷ vs) (s ∷ ss) near (k, ks) r =
      let rest = heard_by f vs ss near ks r in
      record { stations = (k, rest.stations); air = rest.air }
  heard_by f (some env ∷ vs) (s ∷ ss) near (k, ks) (r, rs) =
      let rest = heard_by f vs ss near ks rs in
      let one = hears-IsDone reach master unicast (record s { env = env }) f k near r in
      record {
        stations = nodes-append reach master _ _ one.stations rest.stations;
        air = AreNear-append reach master _ _ one.air rest.air;
      }

  step-Quiet : (n m : Net) → Step reach n m → Quiet n → Quiet m
  step-Quiet n m (hears_frame vs before f after e r) q =
      let (near, others) =
        frame_taken_out reach master before f after (subst (AreNear reach master) e q.air) in
      let h = heard_by f vs n.stations near q.stations r in
      record { stations = h.stations; air = AreNear-append reach master _ _ others h.air }
  step-Quiet n m (loops before s after env e) q =
      let all = subst (AreSettled reach master) e q.stations in
      let k = nth_node reach master before s after all in
      record {
        stations =
            replaced reach master before s _ after all
              (λ j. settled reach master _ _ (loop-IsSettled reach master unicast _ env s.mesh j));
        air = AreNear-append reach master _ _ q.air (loop-AreNear reach master _ env s.mesh k);
      }

  runs-Quiet : (n m : Net) → Runs reach n m → Quiet n → Quiet m
  runs-Quiet n m stays q = q
  runs-Quiet n m (goes {m = o} r s) q = step-Quiet o m s (runs-Quiet n o r q)

  -- Let `master` be an address other than that of a broadcast. From nodes at rest without a route and
  -- without a relay that waits, of which just those with this address are masters, and an empty air:
  -- whatever frames are heard by whom in the range of their senders, and whatever rounds of their
  -- loops the nodes run, a node with another address that is not in the range of the master has no
  -- next hop towards it, at any time.
  pub never_routed :
      (n m : Net)
      → Runs reach n m
      → AreFresh master n.stations
      → n.air ≡ []
      → (before : List Station) (s : Station) (after : List Station)
      → m.stations ≡ before ++ s ∷ after
      → bytes_eq s.mesh.device_mac master ≡ false
      → reach master s.mesh.device_mac ≡ false
      → (now : ℕ) → find_next_hop_to_master s.mesh now ≡ none
  never_routed n m r fresh air before s after e other far now =
      let q = runs-Quiet n m r (record {
        stations = fresh-AreSettled reach master n.stations fresh;
        air = subst (AreNear reach master) (sym air) tt;
      }) in
      let k = nth_node reach master before s after (subst (AreSettled reach master) e q.stations) in
      no_hop s.mesh now (
        lost (
          subst (λ b. IsPlaced reach master b (reach master s.mesh.device_mac) s.mesh) other
            k.place))
    where
      lost :
          IsPlaced reach master false (reach master s.mesh.device_mac) s.mesh
          → s.mesh.current_master.distance ≡ 255
      lost (plain, route) =
          subst (λ near. IsStraight reach master near s.mesh.current_master) far route
