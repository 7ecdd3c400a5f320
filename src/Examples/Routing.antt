-- ===== src/Examples/Routing.antt =====
-- Beacons, routes and relays at concrete inputs.
use planetopia_nodes.Shared.{
  ◌+◌, ◌≡◌, refl, inr, true, false, ◌&&◌, [], ◌∷◌, arith, ltb, leb, ◌==◌, if◌then◌else◌, bytes_eq,
}
use planetopia_nodes.Eeprom.Rom.{read}
use planetopia_nodes.Eeprom.Manager.{Manager}
use planetopia_nodes.Eeprom.Records.{load_boot_epoch}
use planetopia_nodes.Eeprom.Durability.{power_cycle}
use planetopia_nodes.Mesh.Types.{MeshMessage}
use planetopia_nodes.Mesh.Beacons.{process_master_beacon, check_master_timeout}
use planetopia_nodes.Mesh.Sending.{relay_downlink}
use planetopia_nodes.Mesh.Hops.{sent, addressed, sent-relay_downlink}
use planetopia_nodes.Mesh.Trust.{MayReplace, known_master_kept}
use planetopia_nodes.Mesh.Routes.{IsRoute, process_master_beacon-IsRoute, detour_not_taken}
use planetopia_nodes.Mesh.Startup.{Radio}
use planetopia_nodes.Mesh.BootEpoch.{IsRadio, start, boot_epoch_advances}
use planetopia_nodes.Examples.Data.{
  node_mac, peer_mac, foreign_mac, key, env, manager, node, beacon, reading,
}

sent-relay_downlink_example :
    sent (relay_downlink env node reading)
    ≡ (peer_mac, record reading { hop_count = 2; last_hop = node_mac }) ∷ []
unfolding addressed bytes_eq
sent-relay_downlink_example = sent-relay_downlink env node reading

abbrev forged : MeshMessage
forged = record beacon { origin = foreign_mac; hop_count = 0 }

known_master_kept_example :
    MayReplace env node foreign_mac (process_master_beacon env node forged).0.tofu.known_master_mac
known_master_kept_example = known_master_kept env node forged refl

process_master_beacon-IsRoute_example :
    IsRoute (process_master_beacon env node beacon).0.current_master
process_master_beacon-IsRoute_example =
    process_master_beacon-IsRoute env node beacon (inr (omega arith, omega arith))

abbrev detour : MeshMessage
detour = record beacon { hop_count = 4 }

detour_not_taken_example :
    let m' = (process_master_beacon env node detour).0 in
    (m'.current_master ≡ node.current_master) × (check_master_timeout m' 28000 ≡ m')
unfolding bytes_eq
detour_not_taken_example =
    detour_not_taken env node detour 28000 refl refl refl (omega arith) (omega arith) (omega arith)
      (omega arith)

abbrev radio : Radio
radio = record { new_keys = (key, key); own_mac = node_mac; now_ok = true }

radio-IsRadio : IsRadio radio
radio-IsRadio = record { private_size = refl; public_size = refl }

-- Another node, whose EEPROM holds the boot epoch 5.
abbrev booted : Manager
booted = record manager {
  rom = record {
    cells = λ x.
        if x == 494 then 3 else if x == 484 then 5 else if leb 485 x && ltb x 488 then 0 else 255;
    committed = λ x. 255;
  };
}

epoch_is : load_boot_epoch booted ≡ 5
unfolding load_boot_epoch read
epoch_is = refl

boot_epoch_advances_example :
    ((start env radio false key booted).boot_epoch ≡ load_boot_epoch booted + 1)
    × ((start env radio false key
          (power_cycle (start env radio false key booted).eeprom)).boot_epoch
        ≡ load_boot_epoch booted + 2)
unfolding read
boot_epoch_advances_example =
    boot_epoch_advances env env radio radio false key key booted radio-IsRadio radio-IsRadio
      (record { started = refl; production = refl }) refl (omega (arith, epoch_is))
