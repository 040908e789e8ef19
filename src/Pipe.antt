-- ===== src/Pipe.antt =====
-- The pipe between the reader thread and the book: pipe/ of the repository's include directory.
pub mod SpscRing
