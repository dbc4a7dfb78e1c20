-- ===== src/Snapshot/Laws.antt =====
-- The theorems on the cache of prefix snapshots.
pub mod Entries
pub mod Restores
pub mod Keeps
pub mod Finds
pub mod Captures
