-- ===== src/Guards.antt =====
-- What the bare-metal jobs check before they touch a machine: jobs/lib/version.py and
-- jobs/lib/answer_service.py (`version_handshake`), and jobs/lib/bmc_identity.py.
pub mod Version
pub mod Identity
mod Tests
