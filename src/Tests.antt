-- ===== src/Tests.antt =====
-- The theorems at concrete inputs, a module for each part of the program.
mod Files
mod Ranks
mod Requests
mod Snapshots
mod Batches
mod Models
mod Chats
mod Memory
mod Shards
