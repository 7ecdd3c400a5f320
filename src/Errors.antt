-- ===== src/Errors.antt =====
-- main/src/error: the error codes, err::fail, and ErrorCore, which shows, blinks and restarts.
pub mod Codes
pub mod Core
pub mod Reporting
pub mod Checks
