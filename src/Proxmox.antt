-- ===== src/Proxmox.antt =====
-- The jobs that work on a node's Proxmox VE API, and their client.
pub mod Server
pub mod Values
pub mod Trace
pub mod Task
pub mod Client
pub mod Record
pub mod Decommission
pub mod Platform
pub mod Bootstrap
pub mod Deploy
pub mod Contract
mod Tests
