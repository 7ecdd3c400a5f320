-- ===== src/Log.antt =====
-- What the node prints: texts, the logger and its levels.
pub mod Text
pub mod Logger
pub mod MacAddress
