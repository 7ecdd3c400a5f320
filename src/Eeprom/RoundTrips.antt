-- ===== src/Eeprom/RoundTrips.antt =====
-- Records of the EEPROM that are saved and loaded.
use planetopia_nodes.Shared.{
  ℕ, zero, suc, ◌+◌, ◌*◌, ◌/◌, ◌%◌, ◌≤◌, ◌<◌, bit_and, bit_xor, ◌≡◌, sym, ap, ◌∙◌, ◌⊎◌, inl, inr,
  true, false, some, [], ◌∷◌, ◌++◌, arith, ◌==◌, if◌then◌else◌, Bool-cases, u32, length, Bytes,
}
use planetopia_nodes.Eeprom.Rom.{
  Rom, read, write, commit, write_bytes, write_two, read_bytes, read-commit, read-write,
  read-write_bytes, read_bytes-write_bytes, read_bytes-congr, write_two-write_bytes,
}
use planetopia_nodes.Eeprom.Manager.{Manager}
use planetopia_nodes.Eeprom.Records.{load_boot_epoch, save_boot_epoch, epoch_bytes}
use planetopia_nodes.Eeprom.Keypair.{crc_bit, crc_bits, crc_loop, crc16, load_keypair, save_keypair}

-- The manager is started and writes are on.
pub record IsWritable (m : Manager) : Type 0 where
  pub started : m.is_initialized ≡ true
  pub production : m.is_dev_mode ≡ false

read_bytes-commit : (r : Rom) (a n : ℕ) → read_bytes (commit r) a n ≡ read_bytes r a n
read_bytes-commit r a n = read_bytes-congr (commit r) r a n (λ x p q. read-commit r x)

crc_bit-lt : (c : ℕ) → crc_bit c < 65536
unfolding crc_bit
crc_bit-lt c = elim (Bool-cases (bit_and c 0x8000 == 0)) [
  | inl e ↦ rw e (omega arith)
  | inr e ↦ rw e (omega arith)
]

crc_bits-lt : (n c : ℕ) → c < 65536 → crc_bits n c < 65536
unfolding crc_bits
crc_bits-lt zero c h = h
crc_bits-lt (suc n) c h = crc_bits-lt n (crc_bit c) (crc_bit-lt c)

crc_loop-lt : (c : ℕ) (bs : Bytes) → c < 65536 → crc_loop c bs < 65536
unfolding crc_loop
crc_loop-lt c [] h = h
crc_loop-lt c (b ∷ bs) h =
    crc_loop-lt (crc_bits 8 (bit_xor c (b * 256) % 65536)) bs
      (crc_bits-lt 8 (bit_xor c (b * 256) % 65536) (omega arith))

-- The checksum is a 16-bit number.
pub crc16-lt : (bs : Bytes) → crc16 bs < 65536
unfolding crc16
crc16-lt bs = crc_loop-lt 0xFFFF bs (omega arith)

-- A range that a byte write does not meet reads as before.
read_bytes-write :
    (r : Rom) (a v c n : ℕ)
    → a < 512
    → (a < c) ⊎ (c + n ≤ a)
    → read_bytes (write r a v) c n ≡ read_bytes r c n
read_bytes-write r a v c n h d =
    read_bytes-congr (write r a v) r c n (λ x p q. ground (arith, read-write r a v x))

read_bytes-write_bytes_ne :
    (r : Rom) (a : ℕ) (bs : Bytes) (c n : ℕ)
    → a + length bs ≤ 512
    → (a + length bs ≤ c) ⊎ (c + n ≤ a)
    → read_bytes (write_bytes r a bs) c n ≡ read_bytes r c n
read_bytes-write_bytes_ne r a bs c n h d =
    read_bytes-congr (write_bytes r a bs) r c n (λ x p q. ground (arith, read-write_bytes r a bs x))

-- What `save_keypair` leaves in the buffer.
abbrev keypair_rom : Rom → Bytes → Bytes → ℕ → Rom
keypair_rom r priv pub_key crc =
    write (write (write_two r 417 priv 449 pub_key) 481 (crc % 256)) 482 (crc / 256 % 256)

module _ (r : Rom) (priv pub_key : Bytes) (crc : ℕ) (hp : length priv ≡ 32)
    (hq : length pub_key ≡ 32) where
  keys_first : write_two r 417 priv 449 pub_key ≡ write_bytes (write_bytes r 417 priv) 449 pub_key
  keys_first = write_two-write_bytes r 417 priv 449 pub_key (omega arith) (omega arith)

  skip_crc :
      (c n : ℕ)
      → c + n ≤ 481
      → read_bytes (keypair_rom r priv pub_key crc) c n
        ≡ read_bytes (write_bytes (write_bytes r 417 priv) 449 pub_key) c n
  skip_crc c n h =
      read_bytes-write _ 482 _ c n (omega arith) (inr (omega arith))
      ∙ read_bytes-write _ 481 _ c n (omega arith) (inr (omega arith))
      ∙ ap (λ s. read_bytes s c n) keys_first

  private_part : read_bytes (keypair_rom r priv pub_key crc) 417 32 ≡ priv
  private_part =
      skip_crc 417 32 (omega arith)
      ∙ read_bytes-write_bytes_ne (write_bytes r 417 priv) 449 pub_key 417 32 (omega arith)
          (inr (omega arith))
      ∙ ap (read_bytes (write_bytes r 417 priv) 417) (sym hp)
      ∙ read_bytes-write_bytes r 417 priv (omega arith)

  public_part : read_bytes (keypair_rom r priv pub_key crc) 449 32 ≡ pub_key
  public_part =
      skip_crc 449 32 (omega arith)
      ∙ ap (read_bytes (write_bytes (write_bytes r 417 priv) 449 pub_key) 449) (sym hq)
      ∙ read_bytes-write_bytes (write_bytes r 417 priv) 449 pub_key (omega arith)

  crc_part :
      crc < 65536
      → read (keypair_rom r priv pub_key crc) 481 + read (keypair_rom r priv pub_key crc) 482 * 256
        ≡ crc
  crc_part h =
      let s = write_two r 417 priv 449 pub_key in
      let s' = write s 481 (crc % 256) in
      ground (
        arith,
        read-write s' 482 (crc / 256 % 256) 481,
        read-write s' 482 (crc / 256 % 256) 482,
        read-write s 481 (crc % 256) 481,
      )

-- On a started manager that is not in developer mode, a keypair of 32 bytes each that is saved is loaded
-- back whole, and its CRC matches.
pub load_keypair-save_keypair :
    (m : Manager) (priv pub_key : Bytes)
    → IsWritable m
    → length priv ≡ 32
    → length pub_key ≡ 32
    → load_keypair (save_keypair m priv pub_key) ≡ some (true, priv, pub_key)
unfolding load_keypair save_keypair
load_keypair-save_keypair m priv pub_key w hp hq =
    let crc = crc16 (priv ++ pub_key) in
    let s = keypair_rom m.rom priv pub_key crc in
    ground (
      arith,
      w.started,
      w.production,
      read_bytes-commit s 417 32 ∙ private_part m.rom priv pub_key crc hp hq,
      read_bytes-commit s 449 32 ∙ public_part m.rom priv pub_key crc hp hq,
      read-commit s 481,
      read-commit s 482,
      crc_part m.rom priv pub_key crc hp hq (crc16-lt (priv ++ pub_key)),
    )

-- A saved boot epoch is loaded back, but for the all-ones epoch, which stands for none.
pub load_boot_epoch-save_boot_epoch :
    (m : Manager) (e : ℕ)
    → IsWritable m
    → e < u32
    → load_boot_epoch (save_boot_epoch m e) ≡ (if e == 4294967295 then 0 else e)
unfolding load_boot_epoch save_boot_epoch
load_boot_epoch-save_boot_epoch m e w h = ground (
  arith,
  read-commit r 484,
  read-commit r 485,
  read-commit r 486,
  read-commit r 487,
  read-write_bytes m.rom 484 (epoch_bytes e) 484,
  read-write_bytes m.rom 484 (epoch_bytes e) 485,
  read-write_bytes m.rom 484 (epoch_bytes e) 486,
  read-write_bytes m.rom 484 (epoch_bytes e) 487,
)
  where
    r : Rom
    r = write_bytes m.rom 484 (epoch_bytes e)
