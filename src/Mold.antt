-- ===== src/Mold.antt =====
-- MoldUDP64: mold/ of the include directory.
pub mod Bytes
pub mod Packet
pub mod Publisher
pub mod Sequencer
