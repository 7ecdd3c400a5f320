-- ===== src/Net/Range.antt =====
-- Nodes under the loops of all nodes, where a frame only reaches the nodes in the range of its sender.
use planetopia_nodes.Shared.{
  ◌≡◌, Bool, true, false, Option, none, some, List, [], ◌∷◌, ◌++◌, bytes_eq,
}
use planetopia_nodes.Mesh.Types.{Mac, Mesh, Env}
use planetopia_nodes.Mesh.Loop.{loop}
use planetopia_nodes.Net.Air.{Frame, Station, Net, on_air, handed_over}
use planetopia_nodes.Net.Hearing.{IsIdle}
use planetopia_nodes.Net.Flood.{behind_frame}

abbrev pub Range : Type 0
Range = Mac → Mac → Bool

-- Those that hear the frame are in the range of its sender.
abbrev pub AreInRange : Range → Frame → List (Option Env) → List Station → Type 0
AreInRange reach f [] ss = Unit {0}
AreInRange reach f (v ∷ vs) [] = Unit {0}
AreInRange reach f (none ∷ vs) (s ∷ ss) = AreInRange reach f vs ss
AreInRange reach f (some env ∷ vs) (s ∷ ss) =
    (reach f.src s.mesh.device_mac ≡ true) × AreInRange reach f vs ss

-- The net behind a round of the loop of one node.
abbrev pub behind_loop : Net → List Station → Station → List Station → Env → Net
behind_loop n before s after env =
    let (m, es) = loop env s.mesh in
    record {
      stations = before ++ record { env = env; mesh = m } ∷ after;
      air = n.air ++ on_air env m.device_mac es;
      handed = n.handed ++ handed_over m.device_mac es;
    }

pub data Step (reach : Range) (n : Net) : Net → Type 0 where
  hears_frame :
      (vs : List (Option Env)) (before : List Frame) (f : Frame) (after : List Frame)
      → n.air ≡ before ++ f ∷ after
      → AreInRange reach f vs n.stations
      → Step reach n (behind_frame n vs before f after)
  loops :
      (before : List Station) (s : Station) (after : List Station) (env : Env)
      → n.stations ≡ before ++ s ∷ after
      → Step reach n (behind_loop n before s after env)

pub data Runs (reach : Range) (n : Net) : Net → Type 0 where
  stays : Runs reach n n
  goes : {m o : Net} → Runs reach n m → Step reach m o → Runs reach n o

-- Just started nodes, of which those with the address of the master are masters.
pub record IsFresh (master : Mac) (m : Mesh) : Type 0 where
  pub idle : IsIdle m.queue
  pub role : m.is_master ≡ bytes_eq m.device_mac master
  pub routeless : m.current_master.distance ≡ 255
  pub relayless : m.relay.pending ≡ false

abbrev pub AreFresh : Mac → List Station → Type 0
AreFresh master [] = Unit {0}
AreFresh master (s ∷ ss) = IsFresh master s.mesh × AreFresh master ss
