-- ===== src/Net/Unreached.antt =====
-- How far the beacons of the master come.
use planetopia_nodes.Shared.{
  ◌≡◌, sym, ap, subst, ◌∙◌, inl, inr, Bool, true, false, List, [], ◌∷◌, arith, Bool-cases, bytes_eq,
  bytes_eq→eq, bytes_eq_self,
}
use planetopia_nodes.Mesh.Types.{Mac, master_beacon, Mesh, Env, broadcast_mac}
use planetopia_nodes.Mesh.Loop.{loop}
use planetopia_nodes.Net.Air.{Frame, Station, Net, hears, one_hears}
use planetopia_nodes.Net.Hearing.{IsIdle, passed, take_in-handle, handle, handle-IsIdle}
use planetopia_nodes.Net.Handling.{process_entry-IsChange}
use planetopia_nodes.Net.Sorts.{process_entry-AreNoBeacons}
use planetopia_nodes.Net.Rounds.{IsRound, loop-IsRound}
use planetopia_nodes.Net.Range.{Range}
use planetopia_nodes.Net.Settled.{
  IsStraight, IsPlaced, IsSettled, AreSettled, IsNear, AreNear, settled, on_air-AreNear,
  quiet-AreNearFrom, changed, queued,
}

eq_comm : (x y : Mac) → bytes_eq x y ≡ false → bytes_eq y x ≡ false
eq_comm x y e = elim (Bool-cases (bytes_eq y x)) [
  | inl same ↦ absurd (ground (arith, bytes_eq_self x, bytes_eq→eq y x same))
  | inr other ↦ other
]

module _ (reach : Range) (master : Mac) (unicast : bytes_eq master broadcast_mac ≡ false) where
  abbrev Placed : Bool → Bool → Mesh → Type 0
  Placed b near m = IsPlaced reach master b near m

  abbrev Settled : Mac → Mesh → Type 0
  Settled d m = IsSettled reach master d m

  abbrev AllSettled : List Station → Type 0
  AllSettled ss = AreSettled reach master ss

  abbrev Near : Frame → Type 0
  Near f = IsNear reach master f

  abbrev AllNear : List Frame → Type 0
  AllNear fs = AreNear reach master fs

  -- A beacon that a node other than the master hears is one of the master, in its range.
  from_master :
      (s : Station) (f : Frame)
      → Near f
      → hears f s ≡ true
      → reach f.src s.mesh.device_mac ≡ true
      → bytes_eq s.mesh.device_mac master ≡ false
      → f.msg.message_type ≡ master_beacon
      → (reach master s.mesh.device_mac ≡ true) × (f.msg.last_hop ≡ master)
  from_master s f near heard in_range other b = elim (near b) [
    | inl (src, last) ↦ (subst (λ x. reach x s.mesh.device_mac ≡ true) src in_range, last)
    | inr to ↦
        let apart : bytes_eq f.to s.mesh.device_mac ≡ false =
          ap (λ x. bytes_eq x s.mesh.device_mac) to ∙ eq_comm s.mesh.device_mac master other in
        let single : bytes_eq f.to broadcast_mac ≡ false =
          ap (λ x. bytes_eq x broadcast_mac) to ∙ unicast in
        absurd (ground (arith, apart, single))
  ]

  -- What one node leaves behind a frame or a round.
  pub record IsDone (d : Mac) (n : Net) : Type 0 where
    pub stations : AllSettled n.stations
    pub air : AllNear n.air

  pub silent-IsDone :
      (s : Station)
      → Settled s.mesh.device_mac s.mesh
      → IsDone s.mesh.device_mac (record { stations = s ∷ []; air = []; handed = [] })
  silent-IsDone s k = record { stations = (k, tt); air = tt }

  handle-IsSettled :
      (s : Station) (f : Frame)
      → Settled s.mesh.device_mac s.mesh
      → Near f
      → hears f s ≡ true
      → reach f.src s.mesh.device_mac ≡ true
      → Settled s.mesh.device_mac (handle s f).0
  handle-IsSettled s f k near heard in_range =
      let c = process_entry-IsChange s.env _ _ in
      record {
        device = c.device;
        idle = handle-IsIdle s f k.idle;
        place =
            changed reach master _ _ f.msg _ _ c
              (λ other b. from_master s f near heard in_range other b)
              (queued reach master _ _ s.mesh (passed s.mesh.queue f) k.place);
      }

  pub hears-IsDone :
      (s : Station) (f : Frame)
      → Settled s.mesh.device_mac s.mesh
      → Near f
      → reach f.src s.mesh.device_mac ≡ true
      → IsDone s.mesh.device_mac (one_hears f s)
  unfolding one_hears
  hears-IsDone s f k near in_range = elim (Bool-cases (hears f s)) [
    | inl heard ↦ rw heard (
        rw (take_in-handle s f k.idle) (record {
          stations = (settled reach master _ _ (handle-IsSettled s f k near heard in_range), tt);
          air =
              on_air-AreNear reach master s.env _ (handle s f).1
                (quiet-AreNearFrom reach master _ _ (process_entry-AreNoBeacons s.env _ _));
        }))
    | inr deaf ↦ rw deaf (silent-IsDone s k)
  ]

  pub loop-IsSettled : (d : Mac) (env : Env) (m : Mesh) → Settled d m → Settled d (loop env m).0
  loop-IsSettled d env m k =
      let r = loop-IsRound env m k.idle.empty in
      record {
        device = r.device ∙ k.device;
        idle = subst IsIdle (sym r.queue) k.idle;
        place = kept (bytes_eq d master) (reach master d) r k.place;
      }
    where
      kept :
          (b near : Bool)
          → IsRound m (loop env m).0
          → Placed b near m
          → Placed b near (loop env m).0
      kept true near r (top, still) = (r.role ∙ top, r.relay still)
      kept false near r (plain, route) =
          (r.role ∙ plain, subst (IsStraight reach master near) (sym r.route) route)
