-- ===== src/Shared.antt =====
-- platform/shared: what the daemon, the plug-in and the front-ends share.
pub mod Sources
pub mod State
pub mod Store
pub mod Ring
pub mod ZeroTimestamp
pub mod TxFill
pub mod Tests
