-- ===== src/Eeprom/Confinement.antt =====
-- Which bytes of the EEPROM each call of EEPROM_Manager may change in the state in which it comes: the
-- guards of the calls, their records, and what the start writes for each stored version.
use planetopia_nodes.Shared.{
  ℕ, zero, suc, ◌+◌, ◌<◌, ◌≡◌, ◌∙◌, ◌≢◌, inl, inr, Bool, false, not, ◌&&◌, ◌||◌, arith, ltb, leb,
  ◌==◌, if◌then◌else◌, Bool-cases,
}
use planetopia_nodes.Eeprom.Rom.{Rom, read, fill, read-commit, read-fill}
use planetopia_nodes.Eeprom.Manager.{
  Manager, set_dev_mode, flush_if_dirty, force_flush, save_master_flag, save_dev_flag,
  save_adapter_type, save_reboot_count, save_reboot_reason, save_enrolled_flag,
  save_tx_power_preset, save_node_id, clear_all, clear_range,
}
use planetopia_nodes.Eeprom.Records.{
  save_mesh_key, save_peer_list, clear_peer_list, save_boot_epoch, save_mac, clear_mac,
}
use planetopia_nodes.Eeprom.Keypair.{save_keypair}
use planetopia_nodes.Eeprom.Init.{migrate_v2, migrate, init}
use planetopia_nodes.Eeprom.Calls.{
  Op, inits, flushes_if_dirty, flushes, saves_node_id, clears_peer_list, clears_all, clears_range,
  step,
}
use planetopia_nodes.Eeprom.Isolation.{footprint, IsSized, read-step-Outside}
use planetopia_nodes.Eeprom.Migration.{
  v1_image, read-migrate-v1_image, read-stamp_version, read-validated,
}

-- The addresses that the migration from `stored` may write: none from the current version 3, the
-- version byte from an erased EEPROM, all from a newer version, and from an older one the version byte
-- and the secondary master, with from version 0 the peer list and the keypair with its CRC and flag.
abbrev pub migrates : ℕ → ℕ → Bool
migrates stored x =
    if stored == 3
    then false
    else if stored == 255
    then x == 494
    else ltb 3 stored
      || (x == 494)
      || (leb 497 x && ltb x 503)
      || ((stored == 0) && ((leb 32 x && ltb x 412) || (leb 417 x && ltb x 484)))

-- The addresses that belong to a call: its record, and for the start the two bytes of the reboot
-- tracking with those of the migration.
abbrev pub covers : Manager → Op → ℕ → Bool
covers m (inits ok) x = (x == 412) || (x == 413) || migrates (read m.rom 494) x
covers m o x = let (a, n) = footprint o in leb a x && ltb x (a + n)

-- Whether the guards of a call let it write: the start only once and with a library that starts, the
-- node id and the wipes on a started manager, and the other saves only in production mode.
abbrev pub may_write : Manager → Op → Bool
may_write m (inits ok) = not m.is_initialized && ok
may_write m (saves_node_id n) = m.is_initialized
may_write m clears_peer_list = m.is_initialized
may_write m clears_all = m.is_initialized
may_write m (clears_range a b) = m.is_initialized
may_write m o = m.is_initialized && not m.is_dev_mode

-- A call whose guards forbid it to write.
read-step_forbidden :
    (m : Manager) (o : Op) (x : ℕ) → may_write m o ≡ false → read (step m o).rom x ≡ read m.rom x
unfolding step init set_dev_mode flush_if_dirty force_flush save_master_flag save_dev_flag
    save_enrolled_flag save_adapter_type save_reboot_count save_reboot_reason save_node_id
    save_boot_epoch save_tx_power_preset save_mesh_key save_peer_list save_keypair save_mac
    clear_mac clear_peer_list clear_all clear_range
read-step_forbidden m (flushes_if_dirty now after) x h = ground (arith, read-commit m.rom x)
read-step_forbidden m (flushes after) x h = ground (arith, read-commit m.rom x)
read-step_forbidden m _ x h = ground arith

read-migrate_elsewhere :
    (stored : ℕ) (r : Rom) (x : ℕ)
    → migrates stored x ≡ false
    → x ≢ 412
    → x ≢ 413
    → read (migrate stored r) x ≡ read r x
unfolding migrate migrate_v2 v1_image
read-migrate_elsewhere zero r x h a b = read-migrate-v1_image r x ∙ ground arith
read-migrate_elsewhere (suc n) r x h a b = ground (
  arith,
  read-stamp_version r x,
  read-stamp_version (fill r 497 255 6) x,
  read-fill r 497 255 6 x,
)

read-init_elsewhere :
    (m : Manager) (ok : Bool) (x : ℕ)
    → covers m (inits ok) x ≡ false
    → read (init m ok).0.rom x ≡ read m.rom x
unfolding init
read-init_elsewhere m ok x h =
    let s = migrate (read m.rom 494) m.rom in
    let a : x ≢ 412 = ground arith in
    let b : x ≢ 413 = ground arith in
    ground (
      arith,
      read-validated s x,
      read-migrate_elsewhere (read m.rom 494) m.rom x (ground arith) a b,
    )

read-step_covered :
    (m : Manager) (o : Op) (x : ℕ)
    → IsSized o
    → x < 512
    → covers m o x ≡ false
    → read (step m o).rom x ≡ read m.rom x
unfolding step
read-step_covered m (inits ok) x s b h = read-init_elsewhere m ok x h
read-step_covered m o x s b h = read-step-Outside m o x s b (ground arith)

-- Of a call whose arrays have the sizes of their C types, a byte changes only if the guards of the call
-- let it write and the byte belongs to it: to its own record of the layout, to the range that it
-- clears, or for the start to the reboot tracking and the migration of the stored version.
pub read-step_confined :
    (m : Manager) (o : Op) (x : ℕ)
    → IsSized o
    → x < 512
    → (may_write m o && covers m o x) ≡ false
    → read (step m o).rom x ≡ read m.rom x
read-step_confined m o x s b h = elim (Bool-cases (may_write m o)) [
  | inr shut ↦ read-step_forbidden m o x shut
  | inl unlocked ↦ read-step_covered m o x s b (ground arith)
]
