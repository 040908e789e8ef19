-- ===== src/Soup.antt =====
-- SoupBinTCP: soupbin/ of the include directory.
pub mod Packets
pub mod Frames
pub mod Session
pub mod Client
pub mod Server
pub mod Stream
