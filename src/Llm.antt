-- ===== src/Llm.antt =====
-- backend/app/llm: the contracts, the retry classification and the service with its fallback.
pub mod Contracts
pub mod Settings
pub mod Retry
pub mod Service
pub mod Attempts
pub mod Fallback
mod Examples
