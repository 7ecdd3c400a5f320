-- ===== src/Mesh.antt =====
-- main/src/Mesh: the mesh protocol. The state of the class Mesh, one module per group of its methods,
-- and the modules about them.
pub mod Types
pub mod Peers
pub mod Replay
pub mod Receive
pub mod Sending
pub mod Beacons
pub mod Delivery
pub mod Loop
pub mod ReplayLaws
pub mod Interleaving
pub mod Concurrency
pub mod Queue
pub mod Trust
pub mod Routes
pub mod Hops
pub mod AdapterData
pub mod PeerLaws
pub mod Enrollment
pub mod Draining
pub mod Handled
pub mod Startup
pub mod Printing
pub mod PeerStore
pub mod PeerRestart
pub mod KeyDerivation
pub mod KeyAgreement
pub mod BootEpoch
