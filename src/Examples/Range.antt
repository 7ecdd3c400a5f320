-- ===== src/Examples/Range.antt =====
-- A master, a node in its range, and a node behind that one.
use planetopia_nodes.Shared.{
  ◌≡◌, refl, true, false, not, ◌&&◌, Option, none, some, List, [], ◌∷◌, ◌++◌, replicate, bytes_eq,
}
use planetopia_nodes.Eeprom.Manager.{flush_if_dirty}
use planetopia_nodes.Adapter.Types.{unknown_adapter}
use planetopia_nodes.Mesh.Types.{master_beacon, Env, broadcast_mac, zero_message}
use planetopia_nodes.Mesh.Beacons.{no_master}
use planetopia_nodes.Mesh.Peers.{find_next_hop_to_master}
use planetopia_nodes.Mesh.Receive.{take_entry}
use planetopia_nodes.Mesh.Sending.{build_message, broadcast_master_beacon}
use planetopia_nodes.Mesh.Delivery.{drain_pending_enrollment}
use planetopia_nodes.Mesh.Loop.{drain_recv_queue, dispatch_relay, loop}
use planetopia_nodes.Net.Air.{Frame, Station, Net, on_air, one_hears}
use planetopia_nodes.Net.Hearing.{IsIdle}
use planetopia_nodes.Net.Flood.{some_hear, at_one, behind_frame}
use planetopia_nodes.Net.Range.{
  Range, AreInRange, behind_loop, hears_frame, loops, Runs, stays, goes, AreFresh,
}
use planetopia_nodes.Net.NoRoute.{never_routed}
use planetopia_nodes.Examples.Data.{node_mac, peer_mac, master_mac, env, node, empty_ring-IsValid}

-- The far node is out of the range of the master.
abbrev in_range : Range
in_range a b = not (bytes_eq a master_mac && bytes_eq b node_mac)

abbrev top : Station
top = record {
  env = env;
  mesh = record node {
    device_mac = master_mac;
    is_master = true;
    peers = [];
    current_master = no_master;
  };
}

abbrev near : Station
near = record {
  env = env;
  mesh = record node { device_mac = peer_mac; current_master = no_master };
}

abbrev far : Station
far = record { env = env; mesh = record node { current_master = no_master } }

idle : IsIdle node.queue
idle = record { valid = empty_ring-IsValid; empty = refl }

abbrev started : Net
started = record { stations = top ∷ near ∷ far ∷ []; air = []; handed = [] }

started-AreFresh : AreFresh master_mac started.stations
unfolding bytes_eq
started-AreFresh = (
  record { idle = idle; role = refl; routeless = refl; relayless = refl },
  (
    record { idle = idle; role = refl; routeless = refl; relayless = refl },
    (record { idle = idle; role = refl; routeless = refl; relayless = refl }, tt),
  ),
)

-- The master sends its beacon, and the near node hears it.
abbrev beacon_sent : Net
beacon_sent = behind_loop started [] top (near ∷ far ∷ []) env

abbrev only_near : List (Option Env)
only_near = none ∷ some env ∷ none ∷ []

abbrev own_beacon : Frame
own_beacon = record {
  src = master_mac;
  to = broadcast_mac;
  msg = record zero_message {
    version = 2;
    message_type = master_beacon;
    data_type = unknown_adapter;
    origin = master_mac;
    target = broadcast_mac;
    last_hop = master_mac;
    payload = 1 ∷ replicate 63 0;
    epoch_num = 4;
    seq_num = 11;
  };
}

beacon_sent-air : beacon_sent.air ≡ own_beacon ∷ []
unfolding loop drain_recv_queue take_entry drain_pending_enrollment dispatch_relay
    broadcast_master_beacon build_message flush_if_dirty on_air
beacon_sent-air = refl

near_hears : AreInRange in_range own_beacon only_near beacon_sent.stations
unfolding bytes_eq
near_hears = (refl, tt)

abbrev beacon_heard : Net
beacon_heard = behind_frame beacon_sent only_near [] own_beacon []

two_steps : Runs in_range started beacon_heard
two_steps =
    goes (goes stays (loops [] top (near ∷ far ∷ []) env refl))
      (hears_frame only_near [] own_beacon [] beacon_sent-air near_hears)

abbrev looped : Station
looped = record { env = env; mesh = (loop env top.mesh).0 }

last_is_far : beacon_heard.stations ≡ (looped ∷ (one_hears own_beacon near).stations) ++ far ∷ []
unfolding some_hear at_one
last_is_far = refl

master_unicast : bytes_eq master_mac broadcast_mac ≡ false
unfolding bytes_eq
master_unicast = refl

far_is_other : bytes_eq node_mac master_mac ≡ false
unfolding bytes_eq
far_is_other = refl

far_unreached : in_range master_mac node_mac ≡ false
unfolding bytes_eq
far_unreached = refl

never_routed_example : find_next_hop_to_master far.mesh 30000 ≡ none
never_routed_example =
    never_routed in_range master_mac master_unicast started beacon_heard two_steps started-AreFresh
      refl (looped ∷ (one_hears own_beacon near).stations) far [] last_is_far far_is_other
      far_unreached 30000
