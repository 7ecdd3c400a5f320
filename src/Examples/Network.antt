-- ===== src/Examples/Network.antt =====
-- A node, a node between, and a master, and what is on the air between them.
use planetopia_nodes.Shared.{
  ◌+◌, ◌≤◌, ◌≡◌, refl, sym, subst, true, false, Option, none, some, List, [], ◌∷◌, arith, length,
  replicate, Bytes, bytes_eq,
}
use planetopia_nodes.Adapter.Types.{pir_adapter}
use planetopia_nodes.Mesh.Types.{Mac, PeerInfo, Env, broadcast_mac}
use planetopia_nodes.Mesh.Peers.{find_peer, is_peer_in_range, next_hop_in, find_next_hop_to_master}
use planetopia_nodes.Mesh.Sending.{build_message}
use planetopia_nodes.Mesh.Replay.{seen}
use planetopia_nodes.Net.Air.{Frame, Station, Net, run}
use planetopia_nodes.Net.Hearing.{IsIdle}
use planetopia_nodes.Net.Calm.{IsCalm}
use planetopia_nodes.Net.Relay.{HasRoute}
use planetopia_nodes.Net.Passing.{IsGateway}
use planetopia_nodes.Net.Uplink.{IsPath, AreApart, carried, Ends}
use planetopia_nodes.Net.Reading.{sending, reading_of, reading_reaches_master}
use planetopia_nodes.Net.Budget.{weight}
use planetopia_nodes.Net.Flood.{
  heard, Runs, stays, goes, steps, flood_dies_out, AreCalm, behind_frame,
}
use planetopia_nodes.Examples.Data.{
  node_mac, peer_mac, master_mac, key, env, node, empty_ring-IsValid, reading,
}

abbrev at_mac : Mac → PeerInfo
at_mac mac = record { mac = mac; public_key = key; last_seen_millis = 19000 }

abbrev source : Station
source = record { env = env; mesh = node }

abbrev between : Station
between = record {
  env = env;
  mesh = record node {
    device_mac = peer_mac;
    peers = at_mac node_mac ∷ at_mac master_mac ∷ [];
    current_master = record { mac = master_mac; distance = 1; next_hop = master_mac };
  };
}

abbrev gateway : Station
gateway = record {
  env = env;
  mesh = record node { device_mac = master_mac; is_master = true; peers = at_mac peer_mac ∷ [] };
}

idle : IsIdle node.queue
idle = record { valid = empty_ring-IsValid; empty = refl }

abbrev sensed : Bytes
sensed = 1 ∷ replicate 63 0

source-HasRoute : HasRoute master_mac peer_mac source
unfolding find_next_hop_to_master next_hop_in is_peer_in_range find_peer bytes_eq
source-HasRoute = record {
  idle = idle;
  plain = refl;
  learned = refl;
  master_mac = refl;
  hop = refl;
  found = (at_mac peer_mac, refl);
  radio = λ to msg. refl;
  other = refl;
}

between-HasRoute : HasRoute master_mac master_mac between
unfolding find_next_hop_to_master next_hop_in is_peer_in_range find_peer bytes_eq
between-HasRoute = record {
  idle = idle;
  plain = refl;
  learned = refl;
  master_mac = refl;
  hop = refl;
  found = (at_mac master_mac, refl);
  radio = λ to msg. refl;
  other = refl;
}

gateway-IsGateway : IsGateway master_mac (reading_of source pir_adapter sensed) gateway
unfolding bytes_eq build_message
gateway-IsGateway = record {
  idle = idle;
  is_master = refl;
  device = refl;
  linked = refl;
  accepted = refl;
}

line-IsPath : IsPath master_mac (reading_of source pir_adapter sensed) (between ∷ []) gateway
unfolding seen build_message bytes_eq
line-IsPath = (between-HasRoute, refl, (gateway-IsGateway, refl))

line-AreApart : AreApart (node_mac ∷ []) (peer_mac ∷ master_mac ∷ [])
unfolding bytes_eq
line-AreApart = (refl, (refl, tt), (refl, tt), (refl, (refl, (refl, tt)), tt, tt))

master_mac_unicast : bytes_eq master_mac broadcast_mac ≡ false
unfolding bytes_eq
master_mac_unicast = refl

-- The reading of a PIR node over one relay.
reading_reaches_master_example :
    Ends master_mac
      (carried (reading_of source pir_adapter sensed) 1 peer_mac)
      []
      (run 2 (sending source pir_adapter sensed [] (between ∷ gateway ∷ [])))
unfolding build_message
reading_reaches_master_example =
    reading_reaches_master master_mac source pir_adapter sensed (between ∷ []) gateway []
      source-HasRoute (omega arith) master_mac_unicast line-IsPath line-AreApart (omega arith)

-- A message to all that the peer passes to the node, and the step at which the node hears it.
abbrev order : Frame
order = record { src = peer_mac; to = node_mac; msg = record reading { target = broadcast_mac } }

abbrev waiting : Net
waiting = record { stations = source ∷ between ∷ gateway ∷ []; air = order ∷ []; handed = [] }

abbrev hears_all : List (Option Env)
hears_all = some env ∷ some env ∷ none ∷ []

flooded : Runs waiting (behind_frame waiting hears_all [] order [])
flooded = goes stays (heard hears_all [] order [] refl)

calm : (s : Station) → s.mesh.queue ≡ node.queue → length s.mesh.peers ≤ 10 → IsCalm s.mesh
calm s e few = record { idle = subst IsIdle (sym e) idle; few_peers = few }

waiting-AreCalm : AreCalm waiting.stations
waiting-AreCalm = (
  calm source refl (omega arith),
  (calm between refl (omega arith), (calm gateway refl (omega arith), tt)),
)

flood_dies_out_example :
    steps flooded + weight 30 (behind_frame waiting hears_all [] order []).air
    ≤ weight 30 waiting.air
flood_dies_out_example = flood_dies_out waiting _ flooded waiting-AreCalm
