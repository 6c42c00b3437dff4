-- ===== src/Deploy.antt =====
-- pkg/deploy: the coordinator, which spreads protocols over the containers.
pub mod Nodes
pub mod Balance
pub mod Hash
pub mod Query
pub mod Dispatch
pub mod Schedule
pub mod Server
pub mod Fault
pub mod Startup
pub mod WithDb
mod Tests
