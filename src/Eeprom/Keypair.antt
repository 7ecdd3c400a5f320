-- ===== src/Eeprom/Keypair.antt =====
-- EEPROM_Manager: the device keypair and the CRC that guards it.
use planetopia_nodes.Shared.{
  ℕ, zero, suc, ◌+◌, ◌*◌, ◌/◌, ◌%◌, bit_and, bit_xor, Bool, not, ◌||◌, Option, none, some, [], ◌∷◌,
  ◌++◌, ◌==◌, if◌then◌else◌, Bytes,
}
use planetopia_nodes.Eeprom.Layout
use planetopia_nodes.Eeprom.Rom.{read, write, write_two, read_bytes}
use planetopia_nodes.Eeprom.Manager.{Manager, store_now}

-- One round of the inner loop. The shift is of an int, and the store into crc drops the high bits.
unfoldable pub crc_bit : ℕ → ℕ
crc_bit crc = if bit_and crc 0x8000 == 0 then crc * 2 % 65536 else bit_xor (crc * 2) 0x1021 % 65536

unfoldable pub crc_bits : ℕ → ℕ → ℕ
crc_bits zero crc = crc
crc_bits (suc n) crc = crc_bits n (crc_bit crc)

unfoldable pub crc_loop : ℕ → Bytes → ℕ
crc_loop crc [] = crc
crc_loop crc (b ∷ bs) = crc_loop (crc_bits 8 (bit_xor crc (b * 256) % 65536)) bs

unfoldable pub crc16 : Bytes → ℕ
crc16 bs = crc_loop 0xFFFF bs

-- The result and the two buffers, which are filled also where the CRC does not match.
unfoldable pub load_keypair : Manager → Option (Bool × Bytes × Bytes)
load_keypair m =
    if not m.is_initialized
    then none
    else let priv = read_bytes m.rom Layout.private_key 32 in
      let pub_key = read_bytes m.rom Layout.public_key 32 in
      let stored = read m.rom Layout.keypair_crc + read m.rom (Layout.keypair_crc + 1) * 256 in
      some (stored == crc16 (priv ++ pub_key), priv, pub_key)

unfoldable pub save_keypair : Manager → Bytes → Bytes → Manager
save_keypair m priv pub_key =
    if not m.is_initialized || m.is_dev_mode
    then m
    else let r₁ = write_two m.rom Layout.private_key priv Layout.public_key pub_key in
      let crc = crc16 (priv ++ pub_key) in
      store_now m
        (write (write r₁ Layout.keypair_crc (crc % 256)) (Layout.keypair_crc + 1) (crc / 256 % 256))
