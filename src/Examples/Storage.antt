-- ===== src/Examples/Storage.antt =====
-- The EEPROM manager at concrete inputs.
use planetopia_nodes.Shared.{◌≤◌, ◌≡◌, refl, ◌≢◌, true, [], ◌∷◌, arith}
use planetopia_nodes.Eeprom.Rom.{read}
use planetopia_nodes.Eeprom.Manager.{load_reboot_count}
use planetopia_nodes.Eeprom.Init.{migrate, init}
use planetopia_nodes.Eeprom.Calls.{
  saves_known_master_mac_secondary, saves_node_id, flushes, step, run,
}
use planetopia_nodes.Eeprom.Durability.{IsCoherent, run-IsCoherent}
use planetopia_nodes.Eeprom.Confinement.{read-step_confined}
use planetopia_nodes.Eeprom.Migration.{v1_image, read-migrate-v1_image, init_establishes}
use planetopia_nodes.Examples.Data.{peer_mac, rom, manager, unstarted}

manager-IsCoherent : IsCoherent manager
unfolding IsCoherent
manager-IsCoherent = λ _. refl

run-IsCoherent_example : IsCoherent (run manager (saves_node_id 7 ∷ flushes 900 ∷ []))
run-IsCoherent_example =
    run-IsCoherent manager (saves_node_id 7 ∷ flushes 900 ∷ []) manager-IsCoherent

read-step_confined_example :
    read (step manager (saves_known_master_mac_secondary peer_mac)).rom 417 ≡ read manager.rom 417
read-step_confined_example =
    read-step_confined manager (saves_known_master_mac_secondary peer_mac) 417 refl (omega arith)
      refl

read-migrate-v1_image_example : read (migrate 0 rom) 494 ≡ v1_image rom 494
read-migrate-v1_image_example = read-migrate-v1_image rom 494

init_establishes_example :
    let m' = (init unstarted true).0 in
    (m'.is_initialized ≡ true)
    × (read m'.rom 494 ≡ 3)
    × (load_reboot_count m' ≤ 10)
    × (read m'.rom 412 ≢ 0)
    × ((init unstarted true).1 ≡ true)
init_establishes_example = init_establishes unstarted refl
