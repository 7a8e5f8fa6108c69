-- ===== src/Baseline.antt =====
-- jobs/lib/host_baseline.py: the logic of the Host Baseline job.
pub mod Acl
pub mod Vids
pub mod Nic
pub mod Accounts
pub mod Options
pub mod Realm
pub mod SyncJob
pub mod Ports
pub mod Checks
pub mod Packages
pub mod AccountChecks
pub mod Model
mod Tests
