-- ===== src/Protocol.antt =====
-- include/uf/protocol: the portable protocol core.
pub mod Endian
pub mod Codec
pub mod Rate
pub mod Settings
pub mod ClockConfig
pub mod Status
pub mod Control
pub mod Channels
pub mod Midi
pub mod Wav
pub mod Tests
pub mod TestSig
