-- ===== src/Book.antt =====
-- include/itchbook/book: the order book.
pub mod Order
pub mod Level
pub mod Pool
pub mod RefMap
pub mod Side
pub mod State
pub mod Tape
pub mod Band
pub mod Mutate
pub mod Query
