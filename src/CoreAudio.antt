-- ===== src/CoreAudio.antt =====
-- platform/coreaudio: the plug-in's part of an IO cycle.
pub mod Io
