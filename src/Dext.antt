-- ===== src/Dext.antt =====
-- platform/ohci-dext: the driver of the controller, as functions on the descriptors that it shares with
-- the controller. What the controller does to them is a step of the environment.
pub mod Descriptor
pub mod Transmit
pub mod Receive
pub mod MidiIn
pub mod Tests
