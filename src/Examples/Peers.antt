-- ===== src/Examples/Peers.antt =====
-- Two enrolled peers over a restart.
use planetopia_nodes.Shared.{◌≡◌, refl, [], ◌∷◌, arith, replicate, all_are}
use planetopia_nodes.Eeprom.Rom.{read}
use planetopia_nodes.Eeprom.Manager.{force_flush}
use planetopia_nodes.Eeprom.Durability.{power_cycle}
use planetopia_nodes.Mesh.Types.{PeerInfo, Mesh}
use planetopia_nodes.Mesh.Peers.{save_peers_to_eeprom, load_peers_from_eeprom}
use planetopia_nodes.Mesh.PeerStore.{AreStorable, stored}
use planetopia_nodes.Mesh.PeerRestart.{peers_survive_restart}
use planetopia_nodes.Examples.Data.{master_mac, node, peer, manager-IsWritable}

abbrev second : PeerInfo
second = record { mac = master_mac; public_key = replicate 32 9; last_seen_millis = 4 }

abbrev with_two : Mesh
with_two = record node { peers = peer ∷ second ∷ [] }

two_storable : AreStorable with_two.peers
unfolding all_are
two_storable = (
  record { mac_size = refl; key_size = refl; taken = refl },
  (record { mac_size = refl; key_size = refl; taken = refl }, tt),
)

version : read with_two.eeprom.rom 494 ≡ 3
unfolding read
version = refl

peers_survive_restart_example :
    (load_peers_from_eeprom (record node {
      eeprom = power_cycle (force_flush (save_peers_to_eeprom with_two).eeprom 20001);
    })).peers
    ≡ stored peer ∷ stored second ∷ []
peers_survive_restart_example =
    peers_survive_restart with_two node 20001 manager-IsWritable version two_storable (omega arith)
      (omega arith)
