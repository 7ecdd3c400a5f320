-- ===== src/Eeprom/DumpLaws.antt =====
-- The dump of the EEPROM and the keypair.
use planetopia_nodes.Shared.{
  ℕ, zero, suc, ◌+◌, ◌<◌, ◌≡◌, refl, ap, ap₂, ◌⊎◌, inl, inr, false, ◌++◌, arith, ltb, ltb→lt,
  Bool-cases,
}
use planetopia_nodes.Log.Text.{text}
use planetopia_nodes.Log.Logger.{LogLevel}
use planetopia_nodes.Eeprom.Rom.{Rom, read}
use planetopia_nodes.Eeprom.Manager.{Manager}
use planetopia_nodes.Eeprom.Dump.{dump_cells, dump_lines, dump_eeprom, is_key_address, cell_text}

-- Two contents that differ in the range of the keypair and its CRC only.
abbrev pub AreAlikeButKeys : Rom → Rom → Type 0
AreAlikeButKeys r s = (x : ℕ) → x < 512 → (x < 417) ⊎ (482 < x) → read r x ≡ read s x

plain_outside : (x : ℕ) → is_key_address x ≡ false → (x < 417) ⊎ (482 < x)
plain_outside x e = elim (Bool-cases (ltb x 417)) [
  | inl below ↦ inl (ltb→lt x 417 below)
  | inr from ↦ inr (ground arith)
]

dump_cells-congr : (r s : Rom) (x n : ℕ) → AreAlikeButKeys r s → dump_cells r x n ≡ dump_cells s x n
unfolding dump_cells
dump_cells-congr r s x zero h = refl
dump_cells-congr r s x (suc n) h = elim (Bool-cases (ltb x 512)) [
  | inl inside ↦ elim (Bool-cases (is_key_address x)) [
    | inl key ↦ rw (inside, key) (ap (λ t. text "XX " ++ t) (dump_cells-congr r s (x + 1) n h))
    | inr plain ↦
        rw (inside, plain)
          (ap₂ (λ b t. cell_text b ++ t) (h x (ltb→lt x 512 inside) (plain_outside x plain))
            (dump_cells-congr r s (x + 1) n h))
  ]
  | inr outside ↦ rw outside refl
]

dump_lines-congr :
    (level : LogLevel) (r s : Rom) (x n : ℕ)
    → AreAlikeButKeys r s
    → dump_lines level r x n ≡ dump_lines level s x n
unfolding dump_lines
dump_lines-congr level r s x zero h = refl
dump_lines-congr level r s x (suc n) h =
    rw (dump_cells-congr r s x 16 h, dump_lines-congr level r s (x + 16) n h) refl

-- Whatever the level of the logger, two EEPROMs that differ in the keypair and its CRC only print the same
-- dump: nothing of the private key can be read from it.
pub dump_hides_keys :
    (level : LogLevel) (m n : Manager)
    → m.is_initialized ≡ n.is_initialized
    → AreAlikeButKeys m.rom n.rom
    → dump_eeprom level m ≡ dump_eeprom level n
unfolding dump_eeprom
dump_hides_keys level m n e h = rw (e, dump_lines-congr level m.rom n.rom 0 32 h) refl
