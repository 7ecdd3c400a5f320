-- ===== src/Eeprom/Records.antt =====
-- EEPROM_Manager: the loads and saves of several bytes. A load hands back what it puts in the
-- caller's buffer.
use planetopia_nodes.Shared.{
  ℕ, zero, suc, ◌+◌, ◌*◌, ◌/◌, ◌%◌, Bool, false, not, ◌&&◌, ◌||◌, Option, none, some, [], ◌∷◌, ltb,
  ◌==◌, if◌then◌else◌, take, Bytes, all_are,
}
use planetopia_nodes.Eeprom.Layout
use planetopia_nodes.Eeprom.Rom.{Rom, read, write_bytes, fill, read_bytes}
use planetopia_nodes.Eeprom.Manager.{Manager, store_deferred, store_now}

-- `none` where the call returns false and leaves the buffer alone.
unfoldable pub load_mesh_key : Manager → ℕ → Option Bytes
load_mesh_key m key_size =
    if not m.is_initialized
    then none
    else if not (key_size == Layout.mesh_key_size)
    then none
    else some (read_bytes m.rom Layout.mesh_key Layout.mesh_key_size)

unfoldable pub save_mesh_key : Manager → Bytes → ℕ → Manager
save_mesh_key m key key_size =
    if not m.is_initialized
    then m
    else if not (key_size == Layout.mesh_key_size)
    then m
    else if m.is_dev_mode
    then m
    else store_deferred m (write_bytes m.rom Layout.mesh_key (take Layout.mesh_key_size key))

unfoldable pub load_peer_list : Manager → ℕ → Option Bytes
load_peer_list m max_peers =
    if not m.is_initialized
    then none
    else if ltb Layout.max_peers max_peers
    then none
    else some (read_bytes m.rom Layout.peer_list (max_peers * Layout.peer_record_size))

-- The caller's buffer holds `num_peers` whole records.
unfoldable pub save_peer_list : Manager → Bytes → ℕ → Manager
save_peer_list m records num_peers =
    if not m.is_initialized
    then m
    else if ltb Layout.max_peers num_peers
    then m
    else if m.is_dev_mode
    then m
    else store_deferred m (
        write_bytes (fill m.rom Layout.peer_list 255 Layout.peer_list_size) Layout.peer_list
          (take (num_peers * Layout.peer_record_size) records))

unfoldable pub any_not_ff : Rom → ℕ → ℕ → Bool
any_not_ff r a zero = false
any_not_ff r a (suc n) = not (read r a == 255) || any_not_ff r (a + 1) n

unfoldable pub has_peers : Manager → Bool
has_peers m = m.is_initialized && any_not_ff m.rom Layout.peer_list Layout.peer_list_size

unfoldable pub clear_peer_list : Manager → Manager
clear_peer_list m =
    if not m.is_initialized
    then m
    else store_deferred m (fill m.rom Layout.peer_list 255 Layout.peer_list_size)

-- The four bytes of the epoch, lowest first; the shifted bytes do not overlap, so `|=` adds them.
unfoldable pub load_boot_epoch : Manager → ℕ
load_boot_epoch m =
    if not m.is_initialized
    then 0
    else let epoch =
        read m.rom Layout.boot_epoch
        + read m.rom (Layout.boot_epoch + 1) * 256
        + read m.rom (Layout.boot_epoch + 2) * 65536
        + read m.rom (Layout.boot_epoch + 3) * 16777216 in
      if epoch == 4294967295 then 0 else epoch

abbrev pub epoch_bytes : ℕ → Bytes
epoch_bytes e = e % 256 ∷ e / 256 % 256 ∷ e / 65536 % 256 ∷ e / 16777216 % 256 ∷ []

unfoldable pub save_boot_epoch : Manager → ℕ → Manager
save_boot_epoch m epoch =
    if not m.is_initialized || m.is_dev_mode
    then m
    else store_now m (write_bytes m.rom Layout.boot_epoch (epoch_bytes epoch))

-- The result and the six bytes of the caller's buffer; `none` where the buffer is left alone.
unfoldable pub load_mac : Manager → ℕ → Option (Bool × Bytes)
load_mac m a =
    if not m.is_initialized
    then none
    else let mac = read_bytes m.rom a 6 in some (not (all_are 255 mac), mac)

abbrev pub load_known_master_mac : Manager → Option (Bool × Bytes)
load_known_master_mac m = load_mac m Layout.known_master_mac

abbrev pub load_known_master_mac_secondary : Manager → Option (Bool × Bytes)
load_known_master_mac_secondary m = load_mac m Layout.known_master_mac_secondary

unfoldable pub save_mac : Manager → ℕ → Bytes → Manager
save_mac m a mac =
    if not m.is_initialized || m.is_dev_mode then m else store_now m (write_bytes m.rom a mac)

abbrev pub save_known_master_mac : Manager → Bytes → Manager
save_known_master_mac m mac = save_mac m Layout.known_master_mac mac

abbrev pub save_known_master_mac_secondary : Manager → Bytes → Manager
save_known_master_mac_secondary m mac = save_mac m Layout.known_master_mac_secondary mac

unfoldable pub clear_mac : Manager → ℕ → Manager
clear_mac m a =
    if not m.is_initialized || m.is_dev_mode then m else store_now m (fill m.rom a 255 6)

abbrev pub clear_known_master_mac : Manager → Manager
clear_known_master_mac m = clear_mac m Layout.known_master_mac

abbrev pub clear_known_master_mac_secondary : Manager → Manager
clear_known_master_mac_secondary m = clear_mac m Layout.known_master_mac_secondary
