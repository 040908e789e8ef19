-- ===== src/Engine.antt =====
-- The matching engine: engine/ of the include directory.
pub mod OrderTypes
pub mod Matcher
pub mod OnBook
