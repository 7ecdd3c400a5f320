-- ===== src/Main.antt =====
-- main.ino: the start of the node, its loop and its two buttons.
pub mod Buttons
pub mod Wipe
pub mod Hold
pub mod App
pub mod ServerCheck
pub mod Boot
pub mod Calls
pub mod Life
pub mod Watchdog
pub mod Blank
pub mod Erased
pub mod Rounds
pub mod Loop
pub mod Role
pub mod ServerRole
pub mod Kept
pub mod Gate
pub mod Toggle
pub mod Provisioned
pub mod Restart
