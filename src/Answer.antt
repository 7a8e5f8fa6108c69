-- ===== src/Answer.antt =====
-- bmc/answer_service/app.py: the service that answers the installer of a node.
pub mod Keys
pub mod Nic
pub mod Pins
pub mod Install
pub mod Handlers
pub mod Inputs
mod Tests
