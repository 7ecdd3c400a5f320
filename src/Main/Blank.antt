-- ===== src/Main/Blank.antt =====
-- The bytes of an EEPROM that was never written, and what setup leaves of them.
use planetopia_nodes.Shared.{
  ℕ, ◌*◌, ◌≡◌, refl, ap, ◌∙◌, ◌⊎◌, inl, inr, Bool, true, arith, ltb, if◌then◌else◌, take, Bytes,
}
use planetopia_nodes.Eeprom.Rom.{Rom, read, fill}
use planetopia_nodes.Eeprom.Manager.{Manager, set_dev_mode, save_reboot_reason, save_reboot_count}
use planetopia_nodes.Eeprom.Records.{save_peer_list}
use planetopia_nodes.Eeprom.Calls.{saves_reboot_reason, saves_reboot_count, saves_peer_list, step}
use planetopia_nodes.Eeprom.Isolation.{read-step-Outside}
use planetopia_nodes.Eeprom.Durability.{as_flash}
use planetopia_nodes.Main.Calls.{committed-write, committed-write_bytes, committed-fill}

-- A flash of the current layout, or without a version, whose adapter type and developer flag are erased.
pub record IsErased (r : Rom) : Type 0 where
  pub version : (read (as_flash r) 494 ≡ 3) ⊎ (read (as_flash r) 494 ≡ 255)
  pub type_byte : read (as_flash r) 8 ≡ 255
  pub dev_byte : read (as_flash r) 1 ≡ 255

-- A started manager that still shows it so.
pub record IsBlank (m : Manager) : Type 0 where
  pub started : m.is_initialized ≡ true
  pub type_byte : read m.rom 8 ≡ 255
  pub dev_byte : read m.rom 1 ≡ 255
  pub flash : IsErased m.rom

-- A call that commits nothing and leaves both bytes alone.
pub record IsQuiet (m m' : Manager) : Type 0 where
  pub started : m'.is_initialized ≡ m.is_initialized
  pub type_byte : read m'.rom 8 ≡ read m.rom 8
  pub dev_byte : read m'.rom 1 ≡ read m.rom 1
  pub committed : m'.rom.committed ≡ m.rom.committed

pub quiet-IsBlank : (m m' : Manager) → IsQuiet m m' → IsBlank m → IsBlank m'
unfolding read
quiet-IsBlank m m' q u =
    let same : (x : ℕ) → read (as_flash m'.rom) x ≡ read (as_flash m.rom) x =
      λ x. ap (λ g. if ltb x 512 then g x else 255) q.committed in
    record {
      started = q.started ∙ u.started;
      type_byte = q.type_byte ∙ u.type_byte;
      dev_byte = q.dev_byte ∙ u.dev_byte;
      flash = record {
        version = elim u.flash.version [ inl v ↦ inl (same 494 ∙ v) | inr v ↦ inr (same 494 ∙ v) ];
        type_byte = same 8 ∙ u.flash.type_byte;
        dev_byte = same 1 ∙ u.flash.dev_byte;
      };
    }

pub reason-IsQuiet : (m : Manager) (n : ℕ) → IsQuiet m (save_reboot_reason m n)
unfolding step save_reboot_reason
reason-IsQuiet m n = record {
  started = ground arith;
  type_byte = read-step-Outside m (saves_reboot_reason n) 8 tt (omega arith) (omega arith);
  dev_byte = read-step-Outside m (saves_reboot_reason n) 1 tt (omega arith) (omega arith);
  committed = ground (arith, committed-write m.rom 412 n);
}

pub count-IsQuiet : (m : Manager) (n : ℕ) → IsQuiet m (save_reboot_count m n)
unfolding step save_reboot_count
count-IsQuiet m n = record {
  started = ground arith;
  type_byte = read-step-Outside m (saves_reboot_count n) 8 tt (omega arith) (omega arith);
  dev_byte = read-step-Outside m (saves_reboot_count n) 1 tt (omega arith) (omega arith);
  committed = ground (arith, committed-write m.rom 413 n);
}

pub peers-IsQuiet : (m : Manager) (bs : Bytes) (n : ℕ) → IsQuiet m (save_peer_list m bs n)
unfolding step save_peer_list
peers-IsQuiet m bs n = record {
  started = ground arith;
  type_byte = read-step-Outside m (saves_peer_list bs n) 8 tt (omega arith) (omega arith);
  dev_byte = read-step-Outside m (saves_peer_list bs n) 1 tt (omega arith) (omega arith);
  committed = ground (
    arith,
    committed-write_bytes (fill m.rom 32 255 380) 32 (take (n * 38) bs),
    committed-fill m.rom 32 255 380,
  );
}

pub mode-IsQuiet : (m : Manager) (d : Bool) → IsQuiet m (set_dev_mode m d)
unfolding set_dev_mode
mode-IsQuiet m d = record { started = refl; type_byte = refl; dev_byte = refl; committed = refl }
