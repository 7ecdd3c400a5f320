-- ===== src/Examples.antt =====
-- Concrete nodes, and the theorems of the library at them.
pub mod Data
pub mod Protocol
pub mod Routing
pub mod Storage
pub mod Devices
pub mod Node
pub mod Network
pub mod Keys
pub mod Peers
pub mod Logs
pub mod Range
