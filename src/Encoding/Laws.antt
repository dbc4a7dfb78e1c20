-- ===== src/Encoding/Laws.antt =====
-- What is proved of the chat format (encoding/dsv4.py).
pub mod Scan
pub mod Pieces
pub mod Calls
pub mod ToolCalls
pub mod RoundTrip
pub mod Shorter
pub mod Fuel
pub mod Passes
pub mod Merge
pub mod Merged
