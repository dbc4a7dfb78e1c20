-- ===== src/Gguf.antt =====
-- GGUF files: the header reader of src/loader/gguf/reader.py and the header writer of
-- src/cli/make_routed_source_gguf.py.
pub mod Stream
pub mod Types
pub mod Reader
pub mod Bundle
pub mod Resolve
pub mod Writer
pub mod Laws
