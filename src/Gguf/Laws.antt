-- ===== src/Gguf/Laws.antt =====
-- Proofs about the GGUF reader and writer.
pub mod Parses
pub mod Records
pub mod Skips
pub mod Layout
pub mod Copy
pub mod Shards
