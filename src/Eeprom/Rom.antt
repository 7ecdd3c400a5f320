-- ===== src/Eeprom/Rom.antt =====
-- The buffer of the EEPROM library as EEPROM_Manager sees it: read, write, commit. Reads and writes
-- out of range are those of tests/mocks/EEPROM.h. What a commit does to the flash is the library's:
-- `committed` is the content that the last call of commit was made with.
mod Defs
mod Laws
mod Loops
unfoldable pub use Defs.*
pub use Laws.*
pub use Loops.*
