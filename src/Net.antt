-- ===== src/Net.antt =====
-- Several nodes on one radio: the frames in the air, and how the nodes pass them on.
pub mod Air
pub mod Hearing
pub mod NextHop
pub mod Relay
pub mod Passing
pub mod Uplink
pub mod Reading
pub mod Spread
pub mod Calm
pub mod Budget
pub mod Flood
pub mod Handling
pub mod Sorts
pub mod Rounds
pub mod Range
pub mod Settled
pub mod Unreached
pub mod Lost
pub mod NoRoute
