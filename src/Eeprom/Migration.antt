-- ===== src/Eeprom/Migration.antt =====
-- What EEPROM_Manager::init leaves, for each stored version.
use planetopia_nodes.Shared.{
  ℕ, ◌+◌, ◌-◌, ◌≤◌, ◌<◌, ◌≡◌, ap, ◌∙◌, ◌≢◌, Bool, true, false, ◌&&◌, arith, ltb, leb, ◌==◌,
  if◌then◌else◌,
}
use planetopia_nodes.Eeprom.Rom.{
  Rom, read, write, commit, write_bytes, read_bytes, fill, copy_two, read-commit, read-write,
  read-write_bytes, read-fill, copy_two-write_bytes, length-read_bytes, get_or-read_bytes,
}
use planetopia_nodes.Eeprom.Manager.{Manager, load_reboot_count}
use planetopia_nodes.Eeprom.Init.{
  migrate_v1, migrate_v2, stamp_version, migrate, validate_reboot, init,
}

-- The layout that v1 data should have afterwards, address by address: the version, the moved
-- records, the erased slots, and all else as it was.
unfoldable pub v1_image : Rom → ℕ → ℕ
v1_image r x =
    if leb 32 x && ltb x 412
    then 255
    else if x == 412
    then (if read r 92 == 0 then 255 else read r 92)
    else if x == 413
    then (if ltb 10 (read r 93) then 0 else read r 93)
    else if leb 417 x && ltb x 449
    then read r (97 + (x - 417))
    else if leb 449 x && ltb x 481
    then read r (129 + (x - 449))
    else if x == 481
    then read r 161
    else if x == 482
    then read r 162
    else if x == 483
    then read r 163
    else if x == 494
    then 3
    else if leb 497 x && ltb x 503
    then 255
    else read r x

pub read-stamp_version :
    (r : Rom) (x : ℕ) → read (stamp_version r) x ≡ (if x == 494 then 3 else read r x)
unfolding stamp_version
read-stamp_version r x = read-commit (write r 494 3) x ∙ read-write r 494 3 x (omega arith)

-- The copy of the two keys.
read-copy_keys :
    (r : Rom) (x : ℕ)
    → read (copy_two r 97 417 129 449 32) x ≡ (
        if leb 417 x && ltb x 449
        then read r (97 + (x - 417))
        else if leb 449 x && ltb x 481
        then read r (129 + (x - 449))
        else read r x)
read-copy_keys r x =
    let ps = read_bytes r 97 32 in
    let qs = read_bytes r 129 32 in
    ap (λ s. read s x)
      (copy_two-write_bytes r 97 417 129 449 32 (omega arith) (omega arith) (omega arith)
        (omega arith))
    ∙ ground (
      arith,
      length-read_bytes r 97 32,
      length-read_bytes r 129 32,
      read-write_bytes (write_bytes r 417 ps) 449 qs x,
      read-write_bytes r 417 ps x,
      get_or-read_bytes r 97 32 (x - 417),
      get_or-read_bytes r 129 32 (x - 449),
    )

-- The buffer after the reboot tracking bytes have moved.
abbrev tracked : Rom → Rom
tracked r =
    write (write r 412 (if read r 92 == 0 then 255 else read r 92)) 413
      (if ltb 10 (read r 93) then 0 else read r 93)

read-tracked :
    (r : Rom) (x : ℕ)
    → read (tracked r) x ≡ (
        if x == 413
        then (if ltb 10 (read r 93) then 0 else read r 93)
        else if x == 412
        then (if read r 92 == 0 then 255 else read r 92)
        else read r x)
read-tracked r x =
    let v : ℕ = (if read r 92 == 0 then 255 else read r 92) in
    let w : ℕ = (if ltb 10 (read r 93) then 0 else read r 93) in
    read-write (write r 412 v) 413 w x (omega arith)
    ∙ ap (λ k. if x == 413 then w else k) (read-write r 412 v x (omega arith))

-- The CRC and the flag behind the keys.
abbrev flagged : Rom → Rom
flagged r =
    let r₄ = write r 481 (read r 161) in
    let r₅ = write r₄ 482 (read r₄ 162) in write r₅ 483 (read r₅ 163)

read-flagged :
    (r : Rom) (x : ℕ)
    → read (flagged r) x ≡ (
        if x == 481
        then read r 161
        else if x == 482
        then read r 162
        else if x == 483
        then read r 163
        else read r x)
read-flagged r x =
    let r₄ = write r 481 (read r 161) in
    let r₅ = write r₄ 482 (read r₄ 162) in
    ground (
      arith,
      read-write r₅ 483 (read r₅ 163) x,
      read-write r₄ 482 (read r₄ 162) x,
      read-write r 481 (read r 161) x,
      read-write r₄ 482 (read r₄ 162) 163,
      read-write r 481 (read r 161) 163,
      read-write r 481 (read r 161) 162,
    )

read-migrate_v1 :
    (r : Rom) (x : ℕ)
    → read (migrate_v1 r) x ≡ (
        if leb 32 x && ltb x 412
        then 255
        else read (flagged (copy_two (tracked r) 97 417 129 449 32)) x)
unfolding migrate_v1
read-migrate_v1 r x =
    let s = flagged (copy_two (tracked r) 97 417 129 449 32) in
    ground (arith, read-fill (fill s 92 255 72) 32 255 380 x, read-fill s 92 255 72 x)

-- The bytes that v1 kept below the peer list are where v1 left them until they are copied.
below_tracked : (r : Rom) (x : ℕ) → x < 412 → read (tracked r) x ≡ read r x
below_tracked r x h = ground (arith, read-tracked r x)

below_copied :
    (r : Rom) (x : ℕ) → x < 412 → read (copy_two (tracked r) 97 417 129 449 32) x ≡ read r x
below_copied r x h = ground (arith, read-copy_keys (tracked r) x, below_tracked r x)

read-copied :
    (r : Rom) (x : ℕ)
    → read (copy_two (tracked r) 97 417 129 449 32) x ≡ (
        if leb 417 x && ltb x 449
        then read r (97 + (x - 417))
        else if leb 449 x && ltb x 481
        then read r (129 + (x - 449))
        else read (tracked r) x)
read-copied r x = ground (
  arith,
  read-copy_keys (tracked r) x,
  below_tracked r (97 + (x - 417)),
  below_tracked r (129 + (x - 449)),
)

read-migrate_0 :
    (r : Rom) (x : ℕ)
    → read (migrate 0 r) x
      ≡ (if x == 494 then 3 else if leb 497 x && ltb x 503 then 255 else read (migrate_v1 r) x)
unfolding migrate migrate_v2
read-migrate_0 r x =
    read-stamp_version (fill (migrate_v1 r) 497 255 6) x
    ∙ ap (λ k. if x == 494 then 3 else k) (read-fill (migrate_v1 r) 497 255 6 x (omega arith))

-- The v1 migration as a whole, at every address: both keys, their CRC and the enrolled flag move to
-- the new places, the reboot bytes move and are cleaned, the peer list and the secondary master are
-- erased, the version is set, and every other byte keeps its value.
pub read-migrate-v1_image : (r : Rom) (x : ℕ) → read (migrate 0 r) x ≡ v1_image r x
unfolding v1_image
read-migrate-v1_image r x =
    let c = copy_two (tracked r) 97 417 129 449 32 in
    ground (
      arith,
      read-migrate_0 r x,
      read-migrate_v1 r x,
      read-flagged c x,
      below_copied r 161,
      below_copied r 162,
      below_copied r 163,
      read-copied r x,
      read-tracked r x,
    )

-- Whatever version was stored, the migration leaves the current one.
version-migrate : (r : Rom) → read (migrate (read r 494) r) 494 ≡ 3
unfolding migrate
version-migrate r =
    let v = read r 494 in
    let s : Rom = (if v == 0 then migrate_v1 r else r) in
    ground (
      arith,
      read-stamp_version r 494,
      read-stamp_version (if leb v 2 then migrate_v2 s else s) 494,
      read-stamp_version (commit (fill r 0 255 512)) 494,
    )

-- The boot check of the tracking bytes.
pub read-validated :
    (r : Rom) (x : ℕ)
    → read (validate_reboot r) x ≡ (
        if (x == 413) && ltb 10 (read r 413)
        then 0
        else if (x == 412) && (read r 412 == 0)
        then 255
        else read r x)
unfolding validate_reboot
read-validated r x =
    let r₁ : Rom = (if read r 412 == 0 then write r 412 255 else r) in
    let r₂ : Rom = (if ltb 10 (read r₁ 413) then write r₁ 413 0 else r₁) in
    ground (
      arith,
      read-commit r₂ x,
      read-write r₁ 413 0 x,
      read-write r 412 255 x,
      read-write r 412 255 413,
    )

-- Whatever the EEPROM held, the first start of a manager, with a library that starts, succeeds and
-- leaves it started, at the current version, with a reboot count of at most 10 and a reboot reason that is not 0.
pub init_establishes :
    (m : Manager)
    → m.is_initialized ≡ false
    → let m' = (init m true).0 in
      (m'.is_initialized ≡ true)
      × (read m'.rom 494 ≡ 3)
      × (load_reboot_count m' ≤ 10)
      × (read m'.rom 412 ≢ 0)
      × ((init m true).1 ≡ true)
unfolding init load_reboot_count
init_establishes m h =
    let s = migrate (read m.rom 494) m.rom in
    ground (
      arith,
      version-migrate m.rom,
      read-validated s 494,
      read-validated s 413,
      read-validated s 412,
    )

-- The first start at the current version changes no byte but the two of the reboot tracking, and a
-- second call of init nothing at all.
pub init_stable :
    (m : Manager) (ok : Bool) (x : ℕ)
    → m.is_initialized ≡ false
    → read m.rom 494 ≡ 3
    → x ≢ 412
    → x ≢ 413
    → (read (init m true).0.rom x ≡ read m.rom x) × ((init (init m true).0 ok).0 ≡ (init m true).0)
unfolding init migrate
init_stable m ok x h v h₁ h₂ = ground (arith, read-validated m.rom x)
