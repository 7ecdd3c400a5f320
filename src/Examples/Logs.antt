-- ===== src/Examples/Logs.antt =====
-- Texts, and the dump of two EEPROMs with different keys.
use planetopia_nodes.Shared.{◌≡◌, refl, inl, inr, ◌&&◌, [], ◌∷◌, arith, leb, ◌==◌, if◌then◌else◌}
use planetopia_nodes.Log.Text.{text, digit, hex, hex_2, decimal}
use planetopia_nodes.Log.Logger.{log_debug}
use planetopia_nodes.Log.MacAddress.{to_string}
use planetopia_nodes.Eeprom.Rom.{read}
use planetopia_nodes.Eeprom.Manager.{Manager}
use planetopia_nodes.Eeprom.Dump.{dump_eeprom}
use planetopia_nodes.Eeprom.DumpLaws.{AreAlikeButKeys, dump_hides_keys}
use planetopia_nodes.Examples.Data.{rom, manager}

written_mac : to_string (1 ∷ 2 ∷ 0xAB ∷ 255 ∷ 16 ∷ 0 ∷ []) ≡ text "01:02:AB:FF:10:00"
unfolding to_string hex_2 digit
written_mac = refl

written_hex : hex 496 ≡ text "1f0"
unfolding hex digit
written_hex = refl

written_decimal : decimal 417 ≡ text "417"
unfolding decimal digit
written_decimal = refl

-- The same EEPROM with a private key of sevens.
abbrev keyed : Manager
keyed = record manager {
  rom = record rom {
    cells = λ x. if leb 417 x && leb x 448 then 7 else if x == 494 then 3 else 255;
  };
}

keyed-AreAlikeButKeys : AreAlikeButKeys keyed.rom manager.rom
unfolding read
keyed-AreAlikeButKeys x inside (inl below) = ground arith
keyed-AreAlikeButKeys x inside (inr above) = ground arith

dump_hides_keys_example : dump_eeprom log_debug keyed ≡ dump_eeprom log_debug manager
dump_hides_keys_example = dump_hides_keys log_debug keyed manager refl keyed-AreAlikeButKeys
