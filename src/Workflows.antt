-- ===== src/Workflows.antt =====
-- backend/app/workflows: the audit logger, the workflow service and the event service.
pub mod Audit
pub mod Service
pub mod Events
pub mod Trail
pub mod Evolution
pub mod Keeps
pub mod Contract
pub mod Delivery
pub mod Creation
pub mod Listing
pub mod Sorted
pub mod Sample
mod Examples
