-- ===== src/Knowledge.antt =====
-- backend/app/knowledge: the splitting of documents into chunks.
pub mod Chunking
pub mod Progress
pub mod Bounds
mod Examples
