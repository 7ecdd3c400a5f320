-- ===== src/Eeprom.antt =====
-- main/src/persistence: the layout of the EEPROM, EEPROM_Manager's operations, and their laws.
pub mod Layout
pub mod Rom
pub mod Manager
pub mod Records
pub mod Keypair
pub mod Init
pub mod Calls
pub mod RoundTrips
pub mod Durability
pub mod Isolation
pub mod Confinement
pub mod Dump
pub mod DumpLaws
pub mod Migration
