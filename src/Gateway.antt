-- ===== src/Gateway.antt =====
-- crates/gateway_server/src: accounts, reservations, sessions, clients and their orders, and the start-up.
pub mod DashMap
pub mod Accounts
pub mod Manager
pub mod Reconciliation
pub mod Auth
pub mod Sessions
pub mod Pending
pub mod Clients
pub mod Responses
pub mod Startup
pub mod Journal
pub mod Snapshots
pub mod Router
