-- ===== src/Net/Air.antt =====
-- Nodes that hear each other's frames. A node that hears one runs the callback of the radio and then a
-- call of drainRecvQueue (Mesh.cpp); what the other parts of its loop send is not looked at here.
use planetopia_nodes.Shared.{
  ℕ, zero, suc, Bool, not, ◌&&◌, ◌||◌, List, [], ◌∷◌, ◌++◌, if◌then◌else◌, bytes_eq,
}
use planetopia_nodes.Mesh.Types.{
  Mac, MeshMessage, Mesh, Effect, sends, fails, delivers, relays_enrollment, Env, broadcast_mac,
}
use planetopia_nodes.Mesh.Receive.{message_size, on_data_recv}
use planetopia_nodes.Mesh.Loop.{drain_recv_queue}

-- A frame of ESP-NOW: its sender, its addressee and its content.
pub record Frame : Type 0 where
  pub src : Mac
  pub to : Mac
  pub msg : MeshMessage

pub record Station : Type 0 where
  pub env : Env
  pub mesh : Mesh

-- `handed` has what the nodes have handed to their adapters, with the node.
pub record Net : Type 0 where
  pub stations : List Station
  pub air : List Frame
  pub handed : List (Mac × MeshMessage)

-- The frames that the driver takes: esp_now_send has accepted them.
unfoldable pub on_air : Env → Mac → List Effect → List Frame
on_air env device [] = []
on_air env device (sends to msg ∷ es) =
    let rest = on_air env device es in
    if env.send_ok to msg then record { src = device; to = to; msg = msg } ∷ rest else rest
on_air env device (fails f ∷ es) = on_air env device es
on_air env device (delivers msg ∷ es) = on_air env device es
on_air env device (relays_enrollment mac key ∷ es) = on_air env device es

unfoldable pub handed_over : Mac → List Effect → List (Mac × MeshMessage)
handed_over device [] = []
handed_over device (delivers msg ∷ es) = (device, msg) ∷ handed_over device es
handed_over device (sends to msg ∷ es) = handed_over device es
handed_over device (fails f ∷ es) = handed_over device es
handed_over device (relays_enrollment mac key ∷ es) = handed_over device es

-- The callback, and the loop's call.
unfoldable pub take_in : Station → Frame → Mesh × List Effect
take_in s f =
    let m = s.mesh in
    drain_recv_queue 8 s.env (record m { queue = on_data_recv m.queue f.src f.msg message_size })

-- A node hears what is sent to it, and what is sent to all by another one.
abbrev pub hears : Frame → Station → Bool
hears f s =
    bytes_eq f.to s.mesh.device_mac
    || (bytes_eq f.to broadcast_mac && not (bytes_eq f.src s.mesh.device_mac))

-- What one node does about a frame.
unfoldable pub one_hears : Frame → Station → Net
one_hears f s =
    if hears f s
    then (let (m, es) = take_in s f in
        record {
          stations = record s { mesh = m } ∷ [];
          air = on_air s.env m.device_mac es;
          handed = handed_over m.device_mac es;
        })
    else record { stations = s ∷ []; air = []; handed = [] }

abbrev pub beside : Net → Net → Net
beside a b = record {
  stations = a.stations ++ b.stations;
  air = a.air ++ b.air;
  handed = a.handed ++ b.handed;
}

-- What all nodes do about it.
unfoldable pub all_hear : Frame → List Station → Net
all_hear f [] = record { stations = []; air = []; handed = [] }
all_hear f (s ∷ ss) = beside (one_hears f s) (all_hear f ss)

-- The frames one after the other, the oldest first, on fuel.
unfoldable pub run : ℕ → Net → Net
run zero n = n
run (suc fuel) n = elim n.air [
  | [] ↦ n
  | f ∷ fs ↦
      let h = all_hear f n.stations in
      run fuel (record { stations = h.stations; air = fs ++ h.air; handed = n.handed ++ h.handed })
]
