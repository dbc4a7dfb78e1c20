-- ===== src/Ipc/Laws.antt =====
-- What is proved of the shared memory and its protocol (components/moe/ipc.py).
pub mod Turns
pub mod Replies
pub mod Numbers
pub mod Slots
pub mod Acks
pub mod Sound
pub mod Steps
pub mod Safety
pub mod Refinement
pub mod Alive
pub mod Ready
pub mod Progress
pub mod Exchange
