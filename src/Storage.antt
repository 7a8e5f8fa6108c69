-- ===== src/Storage.antt =====
-- jobs/lib/storage_layout.py: the RAID layout of a node.
pub mod Spec
pub mod Drives
pub mod Pick
pub mod Plan
pub mod Guarantees
mod Tests
