-- ===== src/Partition/Laws.antt =====
-- Proofs about the partition rules.
pub mod Owners
pub mod Shards
pub mod Stages
