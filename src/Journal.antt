-- ===== src/Journal.antt =====
-- crates/persistence/src/lib.rs and crates/gateway_server/src/persistence.rs: the journals.
pub mod Postcard
pub mod File
pub mod Frames
pub mod Log
pub mod Directory
pub mod Sample
