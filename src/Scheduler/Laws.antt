-- ===== src/Scheduler/Laws.antt =====
-- Proofs about the scheduler.
pub mod Refs
pub mod Queues
pub mod Order
pub mod Steps
