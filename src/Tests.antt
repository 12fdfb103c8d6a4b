-- ===== src/Tests.antt =====
-- Runs of the models at concrete inputs, and the theorems applied to them.
pub mod Metrics
pub mod Matching
pub mod Engine
pub mod Gateway
pub mod Codec
pub mod Journal
pub mod Snapshots
pub mod Server
pub mod Clients
pub mod Links
