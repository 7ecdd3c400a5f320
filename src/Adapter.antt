-- ===== src/Adapter.antt =====
-- main/src/Adapter: the adapter types, the factory, the dispatch of mesh messages, and the PIR adapter.
pub mod Types
pub mod Factory
pub mod Dispatch
pub mod Configuration
pub mod Pir
pub mod PirLaws
