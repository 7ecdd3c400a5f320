-- ===== src/Eeprom/Isolation.antt =====
-- The part of the EEPROM that each call of EEPROM_Manager may write.
use planetopia_nodes.Shared.{
  ℕ, ◌+◌, ◌-◌, ◌*◌, ◌/◌, ◌%◌, ◌≤◌, ◌<◌, ◌≡◌, refl, ap, ◌⊎◌, ◌++◌, arith, ltb, if◌then◌else◌, length,
  take, length-take, Bytes,
}
use planetopia_nodes.Eeprom.Rom.{
  read, write, write_bytes, fill, write_two, read-commit, read-write, read-write_bytes, read-fill,
  write_two-write_bytes,
}
use planetopia_nodes.Eeprom.Manager.{
  Manager, preset_byte, set_dev_mode, flush_if_dirty, force_flush, save_master_flag, save_dev_flag,
  save_adapter_type, save_reboot_count, save_reboot_reason, save_enrolled_flag,
  save_tx_power_preset, save_node_id, clear_range,
}
use planetopia_nodes.Eeprom.Records.{
  epoch_bytes, save_mesh_key, save_peer_list, clear_peer_list, save_boot_epoch, save_mac, clear_mac,
}
use planetopia_nodes.Eeprom.Keypair.{crc16, save_keypair}
use planetopia_nodes.Eeprom.Calls.{
  Op, inits, sets_dev_mode, flushes_if_dirty, flushes, saves_master_flag, saves_dev_flag,
  saves_enrolled_flag, saves_adapter_type, saves_reboot_count, saves_reboot_reason, saves_node_id,
  saves_boot_epoch, saves_tx_power, saves_mesh_key, saves_peer_list, saves_keypair,
  saves_known_master_mac, saves_known_master_mac_secondary, clears_known_master_mac,
  clears_known_master_mac_secondary, clears_peer_list, clears_all, clears_range, step,
}

-- The first address of a call's record and the number of its bytes, after the table of
-- EEPROM_Manager.h. clearRange wipes from its first address to its last, unless the last is out of
-- range. What the start of the manager writes depends on the stored version, and is narrowed down in
-- Eeprom/Confinement.antt.
abbrev pub footprint : Op → ℕ × ℕ
footprint (inits ok) = (0, 512)
footprint (sets_dev_mode d) = (0, 0)
footprint (flushes_if_dirty now after) = (0, 0)
footprint (flushes after) = (0, 0)
footprint (saves_master_flag b) = (0, 1)
footprint (saves_dev_flag b) = (1, 1)
footprint (saves_enrolled_flag b) = (483, 1)
footprint (saves_adapter_type t) = (8, 1)
footprint (saves_reboot_count n) = (413, 1)
footprint (saves_reboot_reason n) = (412, 1)
footprint (saves_node_id n) = (496, 1)
footprint (saves_boot_epoch e) = (484, 4)
footprint (saves_tx_power p) = (495, 1)
footprint (saves_mesh_key k n) = (16, 16)
footprint (saves_peer_list rs n) = (32, 380)
footprint (saves_keypair a b) = (417, 66)
footprint (saves_known_master_mac mac) = (488, 6)
footprint (saves_known_master_mac_secondary mac) = (497, 6)
footprint clears_known_master_mac = (488, 6)
footprint clears_known_master_mac_secondary = (497, 6)
footprint clears_peer_list = (32, 380)
footprint clears_all = (0, 512)
footprint (clears_range a b) = (a, if ltb b 512 then b + 1 - a else 0)

-- The arrays have the sizes of their C types.
abbrev pub IsSized : Op → Type 0
IsSized (saves_keypair a b) = (length a ≡ 32) × (length b ≡ 32)
IsSized (saves_known_master_mac mac) = length mac ≡ 6
IsSized (saves_known_master_mac_secondary mac) = length mac ≡ 6
IsSized _ = Unit {0}

abbrev pub Outside : ℕ → ℕ × ℕ → Type 0
Outside x (a, n) = (x < a) ⊎ (a + n ≤ x)

-- A write of one byte that is committed now or later.
module _ (m : Manager) (x : ℕ) where
  pub keypair-Outside :
      (a b : Bytes)
      → length a ≡ 32
      → length b ≡ 32
      → Outside x (417, 66)
      → read (save_keypair m a b).rom x ≡ read m.rom x
  unfolding save_keypair
  keypair-Outside a b ha hb o =
      let r₁ = write_two m.rom 417 a 449 b in
      let crc = crc16 (a ++ b) in
      let r₂ = write r₁ 481 (crc % 256) in
      let e : r₁ ≡ write_bytes (write_bytes m.rom 417 a) 449 b =
        write_two-write_bytes m.rom 417 a 449 b (omega arith) (omega arith) in
      ground (
        arith,
        read-commit (write r₂ 482 (crc / 256 % 256)) x,
        read-write r₂ 482 (crc / 256 % 256) x,
        read-write r₁ 481 (crc % 256) x,
        ap (λ s. read s x) e,
        read-write_bytes (write_bytes m.rom 417 a) 449 b x,
        read-write_bytes m.rom 417 a x,
      )

  peers-Outside :
      (rs : Bytes) (n : ℕ) → Outside x (32, 380) → read (save_peer_list m rs n).rom x ≡ read m.rom x
  unfolding save_peer_list
  peers-Outside rs n o =
      let bs = take (n * 38) rs in
      ground (
        arith,
        length-take (n * 38) rs,
        read-write_bytes (fill m.rom 32 255 380) 32 bs x,
        read-fill m.rom 32 255 380 x,
      )

  pub mesh_key-Outside :
      (k : Bytes) (n : ℕ) → Outside x (16, 16) → read (save_mesh_key m k n).rom x ≡ read m.rom x
  unfolding save_mesh_key
  mesh_key-Outside k n o = ground (arith, length-take 16 k, read-write_bytes m.rom 16 (take 16 k) x)

  save_mac-Outside :
      (a : ℕ) (mac : Bytes)
      → length mac ≡ 6
      → Outside x (a, 6)
      → a + 6 ≤ 512
      → read (save_mac m a mac).rom x ≡ read m.rom x
  unfolding save_mac
  save_mac-Outside a mac s o h =
      ground (arith, read-write_bytes m.rom a mac x, read-commit (write_bytes m.rom a mac) x)

  clear_mac-Outside :
      (a : ℕ) → Outside x (a, 6) → a + 6 ≤ 512 → read (clear_mac m a).rom x ≡ read m.rom x
  unfolding clear_mac
  clear_mac-Outside a o h =
      ground (arith, read-fill m.rom a 255 6 x, read-commit (fill m.rom a 255 6) x)

-- A call whose arrays have the sizes of their C types changes no byte outside its own record.
pub read-step-Outside :
    (m : Manager) (o : Op) (x : ℕ)
    → IsSized o
    → x < 512
    → Outside x (footprint o)
    → read (step m o).rom x ≡ read m.rom x
unfolding step set_dev_mode flush_if_dirty force_flush save_master_flag save_dev_flag
    save_enrolled_flag save_adapter_type save_reboot_count save_reboot_reason save_node_id
    save_boot_epoch save_tx_power_preset clear_peer_list clear_range
read-step-Outside m (inits ok) x s b h = absurd (omega arith)
read-step-Outside m (sets_dev_mode d) x s b h = refl
read-step-Outside m (flushes_if_dirty now after) x s b h = ground (arith, read-commit m.rom x)
read-step-Outside m (flushes after) x s b h = ground (arith, read-commit m.rom x)
read-step-Outside m (saves_master_flag f) x s b h =
    ground (arith, read-write m.rom 0 (if f then 1 else 0) x)
read-step-Outside m (saves_dev_flag f) x s b h =
    ground (arith, read-write m.rom 1 (if f then 1 else 0) x)
read-step-Outside m (saves_enrolled_flag f) x s b h =
    let v : ℕ = (if f then 1 else 255) in
    ground (arith, read-write m.rom 483 v x, read-commit (write m.rom 483 v) x)
read-step-Outside m (saves_adapter_type t) x s b h = ground (arith, read-write m.rom 8 t x)
read-step-Outside m (saves_reboot_count n) x s b h = ground (arith, read-write m.rom 413 n x)
read-step-Outside m (saves_reboot_reason n) x s b h = ground (arith, read-write m.rom 412 n x)
read-step-Outside m (saves_node_id n) x s b h = ground (arith, read-write m.rom 496 n x)
read-step-Outside m (saves_boot_epoch e) x s b h = ground (
  arith,
  read-write_bytes m.rom 484 (epoch_bytes e) x,
  read-commit (write_bytes m.rom 484 (epoch_bytes e)) x,
)
read-step-Outside m (saves_tx_power p) x s b h =
    ground (
      arith,
      read-write m.rom 495 (preset_byte p) x,
      read-commit (write m.rom 495 (preset_byte p)) x,
    )
read-step-Outside m (saves_mesh_key k n) x s b h = mesh_key-Outside m x k n h
read-step-Outside m (saves_peer_list rs n) x s b h = peers-Outside m x rs n h
read-step-Outside m (saves_keypair p q) x s b h = keypair-Outside m x p q s.0 s.1 h
read-step-Outside m (saves_known_master_mac mac) x s b h =
    save_mac-Outside m x 488 mac s h (omega arith)
read-step-Outside m (saves_known_master_mac_secondary mac) x s b h =
    save_mac-Outside m x 497 mac s h (omega arith)
read-step-Outside m clears_known_master_mac x s b h = clear_mac-Outside m x 488 h (omega arith)
read-step-Outside m clears_known_master_mac_secondary x s b h =
    clear_mac-Outside m x 497 h (omega arith)
read-step-Outside m clears_peer_list x s b h = ground (arith, read-fill m.rom 32 255 380 x)
read-step-Outside m clears_all x s b h = absurd (omega arith)
read-step-Outside m (clears_range a c) x s b h =
    ground
      (arith, read-fill m.rom a 255 (c + 1 - a) x, read-commit (fill m.rom a 255 (c + 1 - a)) x)
