-- ===== src/Daemon.antt =====
-- platform/daemon/uf-daemon.cpp: the streaming session, and what the pump reads of the driver.
pub mod Session
pub mod Clock
pub mod Capture
pub mod Pace
pub mod Tests
