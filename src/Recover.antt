-- ===== src/Recover.antt =====
-- What the receiver does about a feed that lost messages: recover/ of the include directory.
pub mod GapPolicy
pub mod Halt
