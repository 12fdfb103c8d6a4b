-- ===== src/Engine.antt =====
-- crates/engine/src: the order book, the accounts and the engine that joins them.
pub mod Slab
pub mod Book
pub mod Matching
pub mod Accounts
pub mod State
pub mod Core
pub mod Snapshot
pub mod Server
pub mod Link
