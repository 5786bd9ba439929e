-- ===== src/Approval.antt =====
-- backend/app/approvals: who may decide, when, and what a decision changes.
pub mod Roles
pub mod Rules
pub mod Metadata
pub mod Sanitize
pub mod Payload
pub mod Service
pub mod Keeps
pub mod Contract
pub mod Outcome
pub mod Refusal
pub mod Access
mod Examples
