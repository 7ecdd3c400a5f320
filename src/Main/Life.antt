-- ===== src/Main/Life.antt =====
-- The starts of a node one after the other, and what the first step of each finds in the flash.
use planetopia_nodes.Shared.{
  ℕ, ◌<◌, ◌≡◌, refl, ap, ◌∙◌, ◌⊎◌, inl, inr, Bool, true, false, arith, ltb, ◌==◌, if◌then◌else◌,
}
use planetopia_nodes.Eeprom.Rom.{Rom, read, write, read-write, read-commit}
use planetopia_nodes.Eeprom.Manager.{Manager, new, save_reboot_count}
use planetopia_nodes.Eeprom.Init.{validate_reboot, migrate, init}
use planetopia_nodes.Eeprom.Durability.{
  as_flash, read-validate_reboot, committed-validate_reboot, migrate-current,
}
use planetopia_nodes.Eeprom.Migration.{read-stamp_version}
use planetopia_nodes.Mesh.BootEpoch.{IsRadio}
use planetopia_nodes.Main.Boot.{
  Board, Outcome, halts_watchdog, halts_no_led, restarts, hangs, runs, setup,
}
use planetopia_nodes.Main.Calls.{flash_at, committed-write, IsUncounted, Reaches}

-- A flash of the current layout, or without a version, that counts no resets: what is above 10 is
-- dropped by the next start.
abbrev pub IsClean : Rom → Type 0
IsClean r =
    ((read (as_flash r) 494 ≡ 3) ⊎ (read (as_flash r) 494 ≡ 255))
    × ((read (as_flash r) 413 ≡ 0) ⊎ (10 < read (as_flash r) 413))

-- The manager that a start leaves at the next reset: a running node may have made any calls in between
-- but those that save the reboot count, start the manager again or wipe ranges.
abbrev pub Ends : Outcome → Manager → Type 0
Ends (halts_watchdog m) m' = m' ≡ m
Ends (halts_no_led m) m' = m' ≡ m
Ends (restarts m) m' = m' ≡ m
Ends (hangs m) m' = m' ≡ m
Ends (runs app) m' = Reaches app.mesh.eeprom m'

-- The flash of a node over any number of starts, for any reasons, from the flash `f`.
pub data Life (f : Rom) : Rom → Type 0 where
  here : Life f f
  boots :
      {g : Rom} (b : Board) (m : Manager)
      → Life f g
      → IsRadio b.radio
      → Ends (setup b (as_flash g)) m
      → Life f m.rom

abbrev pub has_halted : Outcome → Bool
has_halted (halts_watchdog m) = true
has_halted _ = false

-- What is left behind by a start that does not halt.
abbrev pub IsSound : Outcome → Type 0
IsSound (halts_watchdog m) = ⊥
IsSound (halts_no_led m) = IsClean m.rom
IsSound (restarts m) = IsClean m.rom
IsSound (hangs m) = IsClean m.rom
IsSound (runs app) = IsUncounted app.mesh.eeprom

pub clean : (m : Manager) → IsUncounted m → IsClean m.rom
clean m u = (inl u.flash_version, inl u.flash_count)

count-validate_reboot :
    (r : Rom) → (read r 413 ≡ 0) ⊎ (10 < read r 413) → read (validate_reboot r) 413 ≡ 0
unfolding validate_reboot
count-validate_reboot r h =
    let r₁ = (if read r 412 == 0 then write r 412 255 else r) in
    let r₂ = (if ltb 10 (read r₁ 413) then write r₁ 413 0 else r₁) in
    ground (arith, read-commit r₂ 413, read-write r 412 255 413, read-write r₁ 413 0 413)

abbrev IsCurrent : Rom → Rom → Type 0
IsCurrent q r = (read q 494 ≡ 3) × (read q 413 ≡ read r 413)

stamped : (r : Rom) → IsCurrent (migrate 255 r) r
unfolding migrate
stamped r = (read-stamp_version r 494, read-stamp_version r 413)

migrated :
    (r : Rom) → IsClean r → IsCurrent (migrate (read (as_flash r) 494) (as_flash r)) (as_flash r)
migrated r (inl v, h) = rw (v, migrate-current) (v, refl)
migrated r (inr v, h) = rw v (stamped (as_flash r))

-- A start from a clean flash counts nothing yet.
pub started : (r : Rom) → IsClean r → IsUncounted (init (new (as_flash r)) true).0
unfolding init new read
started r h =
    let q = migrate (read (as_flash r) 494) (as_flash r) in
    let (v, c) = migrated r h in
    let count : read (validate_reboot q) 413 ≡ 0 = count-validate_reboot q (rw c h.1) in
    let version : read (validate_reboot q) 494 ≡ 3 =
      read-validate_reboot q 494 (omega arith) (omega arith) ∙ v in
    let flash = committed-validate_reboot q in
    record {
      count = count;
      version = version;
      flash_count = ap (λ g. g 413) flash ∙ count;
      flash_version = ap (λ g. g 494) flash ∙ version;
    }

committed-save_reboot_count :
    (m : Manager) (n : ℕ) → (save_reboot_count m n).rom.committed ≡ m.rom.committed
unfolding save_reboot_count
committed-save_reboot_count m n = ground (arith, committed-write m.rom 413 n)

pub flash_at-save_reboot_count :
    (m : Manager) (n x : ℕ) → flash_at (save_reboot_count m n) x ≡ flash_at m x
unfolding read
flash_at-save_reboot_count m n x =
    ap (λ g. if ltb x 512 then g x else 255) (committed-save_reboot_count m n)

pub zero-IsUncounted : (m : Manager) → IsUncounted m → IsUncounted (save_reboot_count m 0)
unfolding save_reboot_count
zero-IsUncounted m u = record {
  count = ground (arith, read-write m.rom 413 0 413, u.count);
  version = ground (arith, read-write m.rom 413 0 494, u.version);
  flash_count = flash_at-save_reboot_count m 0 413 ∙ u.flash_count;
  flash_version = flash_at-save_reboot_count m 0 494 ∙ u.flash_version;
}
