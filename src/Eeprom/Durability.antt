-- ===== src/Eeprom/Durability.antt =====
-- The EEPROM over a loss of power: what is committed, and what a restarted node reads.
use planetopia_nodes.Shared.{
  ℕ, ◌<◌, ◌≡◌, refl, sym, ap, ◌∙◌, ◌≢◌, Bool, true, false, not, some, List, [], ◌∷◌, arith, ltb,
  ◌==◌, if◌then◌else◌, length, Bytes, all_are,
}
use planetopia_nodes.Eeprom.Layout
use planetopia_nodes.Eeprom.Rom.{
  Rom, read, write, commit, write_bytes, read_bytes, read-commit, read-write, read-write_bytes,
  read_bytes-write_bytes, read_bytes-congr,
}
use planetopia_nodes.Eeprom.Manager.{
  Manager, new, set_dev_mode, flush_if_dirty, force_flush, save_master_flag, save_dev_flag,
  save_adapter_type, save_reboot_count, save_reboot_reason, save_enrolled_flag, load_enrolled_flag,
  save_tx_power_preset, save_node_id, clear_all, clear_range,
}
use planetopia_nodes.Eeprom.Records.{
  epoch_bytes, save_mesh_key, save_peer_list, clear_peer_list, save_boot_epoch, load_boot_epoch,
  load_mac, save_mac, clear_mac, load_known_master_mac, save_known_master_mac,
}
use planetopia_nodes.Eeprom.Keypair.{save_keypair}
use planetopia_nodes.Eeprom.Init.{validate_reboot, migrate, init}
use planetopia_nodes.Eeprom.RoundTrips.{IsWritable}
use planetopia_nodes.Eeprom.Calls.{Op, inits, step, run}

-- A manager with nothing marked dirty has handed all its content to a commit.
unfoldable pub IsCoherent : Manager → Type 0
IsCoherent m = m.dirty ≡ false → m.rom.committed ≡ m.rom.cells

committed-commit : (r : Rom) → (commit r).committed ≡ (commit r).cells
unfolding commit
committed-commit r = refl

pub committed-validate_reboot :
    (r : Rom) → (validate_reboot r).committed ≡ (validate_reboot r).cells
unfolding validate_reboot
committed-validate_reboot r = committed-commit _

init-IsCoherent : (m : Manager) (ok : Bool) → IsCoherent m → IsCoherent (init m ok).0
unfolding init IsCoherent
init-IsCoherent m ok h =
    ground (arith, committed-validate_reboot (migrate (read m.rom Layout.schema_version) m.rom))

-- Every call keeps the invariant.
step-IsCoherent : (m : Manager) (o : Op) → IsCoherent m → IsCoherent (step m o)
unfolding step IsCoherent commit set_dev_mode flush_if_dirty force_flush save_master_flag
    save_dev_flag save_enrolled_flag save_adapter_type save_reboot_count save_reboot_reason
    save_node_id save_boot_epoch save_tx_power_preset save_mesh_key save_peer_list save_keypair
    save_mac clear_mac clear_peer_list clear_all clear_range
step-IsCoherent m (inits ok) h = init-IsCoherent m ok h
step-IsCoherent m _ h = ground arith

-- A manager is coherent if it is marked dirty or has committed the buffer as it stands; any sequence of
-- calls leads from a coherent manager to a coherent one.
pub run-IsCoherent : (m : Manager) (os : List Op) → IsCoherent m → IsCoherent (run m os)
unfolding run
run-IsCoherent m [] h = h
run-IsCoherent m (o ∷ os) h = run-IsCoherent (step m o) os (step-IsCoherent m o h)

-- The node loses its power and starts again: the buffer is what was committed.
unfoldable pub power_cycle : Manager → Manager
power_cycle m =
    (init (new (record { cells = m.rom.committed; committed = m.rom.committed })) true).0

pub read-validate_reboot :
    (r : Rom) (x : ℕ) → x ≢ 412 → x ≢ 413 → read (validate_reboot r) x ≡ read r x
unfolding validate_reboot
read-validate_reboot r x h k =
    let r₁ = (if read r 412 == 0 then write r 412 255 else r) in
    let r₂ = (if ltb 10 (read r₁ 413) then write r₁ 413 0 else r₁) in
    ground (arith, read-commit r₂ x, read-write r 412 255 x, read-write r₁ 413 0 x)

pub migrate-current : (r : Rom) → migrate 3 r ≡ r
unfolding migrate
migrate-current r = refl

abbrev pub as_flash : Rom → Rom
as_flash r = record { cells = r.committed; committed = r.committed }

-- At the current version a restart finds each byte but the two of the reboot tracking as committed.
pub read-power_cycle :
    (m : Manager) (x : ℕ)
    → read (as_flash m.rom) 494 ≡ 3
    → x ≢ 412
    → x ≢ 413
    → read (power_cycle m).rom x ≡ read (as_flash m.rom) x
unfolding power_cycle init new
read-power_cycle m x v h k = rw (v, migrate-current) (read-validate_reboot (as_flash m.rom) x h k)

pub started-power_cycle : (m : Manager) → (power_cycle m).is_initialized ≡ true
unfolding power_cycle init new
started-power_cycle m = refl

pub read_bytes-power_cycle :
    (m : Manager) (a n : ℕ)
    → read (as_flash m.rom) 494 ≡ 3
    → 413 < a
    → read_bytes (power_cycle m).rom a n ≡ read_bytes (as_flash m.rom) a n
read_bytes-power_cycle m a n v h =
    read_bytes-congr (power_cycle m).rom (as_flash m.rom) a n
      (λ x p q. read-power_cycle m x v (omega arith) (omega arith))

as_flash-commit : (r : Rom) → as_flash (commit r) ≡ record { cells = r.cells; committed = r.cells }
unfolding commit
as_flash-commit r = refl

-- A committed buffer reads after a restart as it read when it was committed.
pub read-as_flash-commit : (r : Rom) (x : ℕ) → read (as_flash (commit r)) x ≡ read r x
unfolding read commit
read-as_flash-commit r x = refl

-- After any sequence of calls from a coherent manager, if nothing is marked dirty and the version is
-- the current one, a loss of power changes no byte but the two of the reboot tracking.
pub clean_run_survives :
    (m : Manager) (os : List Op) (x : ℕ)
    → IsCoherent m
    → (run m os).dirty ≡ false
    → read (run m os).rom 494 ≡ 3
    → x ≢ 412
    → x ≢ 413
    → read (power_cycle (run m os)).rom x ≡ read (run m os).rom x
unfolding IsCoherent read
clean_run_survives m os x c clean v h k =
    let e = run-IsCoherent m os c clean in
    read-power_cycle (run m os) x (rw e v) h k ∙ ap (λ f. if ltb x 512 then f x else 255) e

save_mac-eq :
    (m : Manager) (a : ℕ) (mac : Bytes)
    → IsWritable m
    → save_mac m a mac ≡ record m { rom = commit (write_bytes m.rom a mac) }
unfolding save_mac
save_mac-eq m a mac w = ground (arith, w.started, w.production)

-- A master MAC of 6 bytes that is saved on a started manager, not in developer mode and at the current
-- layout version, outlives a loss of power right after the call: the restarted node loads it, and takes
-- it for set unless it is the all-ones address.
pub learned_master_survives :
    (m : Manager) (mac : Bytes)
    → IsWritable m
    → length mac ≡ 6
    → read m.rom 494 ≡ 3
    → load_known_master_mac (power_cycle (save_known_master_mac m mac))
      ≡ some (not (all_are 255 mac), mac)
unfolding load_mac
learned_master_survives m mac w len v =
    rw (save_mac-eq m 488 mac w)
      (rw (started-power_cycle saved) (ap (λ bs. some (not (all_are 255 bs), bs)) bytes))
  where
    r : Rom
    r = write_bytes m.rom 488 mac

    saved : Manager
    saved = record m { rom = commit r }

    version : read (as_flash (commit r)) 494 ≡ 3
    version = read-as_flash-commit r 494 ∙ ground (arith, read-write_bytes m.rom 488 mac 494)

    bytes : read_bytes (power_cycle saved).rom 488 6 ≡ mac
    bytes =
        read_bytes-power_cycle saved 488 6 version (omega arith)
        ∙ read_bytes-congr (as_flash (commit r)) r 488 6 (λ x p q. read-as_flash-commit r x)
        ∙ ap (read_bytes r 488) (sym len)
        ∙ read_bytes-write_bytes m.rom 488 mac (omega arith)

-- The enrolled flag, saved on a node at the current layout version, outlives a loss of power.
pub enrolled_survives :
    (m : Manager) (b : Bool)
    → IsWritable m
    → read m.rom 494 ≡ 3
    → load_enrolled_flag (power_cycle (save_enrolled_flag m b)) ≡ b
unfolding load_enrolled_flag save_enrolled_flag
enrolled_survives m b w v = ground (
  arith,
  started-power_cycle saved,
  read-power_cycle saved 483
      (read-as_flash-commit r 494 ∙ ground (arith, read-write m.rom 483 byte 494)),
  read-as_flash-commit r 483,
  read-write m.rom 483 byte 483,
)
  where
    byte : ℕ
    byte = if b then 1 else 255

    r : Rom
    r = write m.rom 483 byte

    saved : Manager
    saved = record m { rom = commit r }

pub IsWritable-power_cycle : (m : Manager) → IsWritable (power_cycle m)
unfolding power_cycle init new
IsWritable-power_cycle m = record { started = refl; production = refl }

-- A boot epoch that is saved on a node at the current layout version outlives a loss of power.
pub boot_epoch_survives :
    (m : Manager) (e : ℕ)
    → IsWritable m
    → read m.rom 494 ≡ 3
    → load_boot_epoch (power_cycle (save_boot_epoch m e)) ≡ load_boot_epoch (save_boot_epoch m e)
unfolding load_boot_epoch save_boot_epoch power_cycle read
boot_epoch_survives m e w v =
    let r : Rom = write_bytes m.rom 484 (epoch_bytes e) in
    let saved : Manager = record m { rom = commit r } in
    let version : read (as_flash (commit r)) 494 ≡ 3 =
      read-as_flash-commit r 494 ∙ ground (arith, read-write_bytes m.rom 484 (epoch_bytes e) 494) in
    let back : (x : ℕ) → 413 < x → read (power_cycle saved).rom x ≡ read (commit r) x = λ x h.
      read-power_cycle saved x version (omega arith) (omega arith)
      ∙ read-as_flash-commit r x
      ∙ sym (read-commit r x) in
    rw
      (
        w.started,
        w.production,
        started-power_cycle saved,
        back 484 (omega arith),
        back 485 (omega arith),
        back 486 (omega arith),
        back 487 (omega arith),
      )
      refl
