-- ===== src/Delivery.antt =====
-- The event outbox: backend/runtime/services/event_delivery.py over the table
-- ExecutionEventDelivery of backend/runtime/models.py.
pub mod Row
pub mod Repair
pub mod Marking
pub mod Outbox
pub mod Enqueued
pub mod Redrive
pub mod Publisher
pub mod Validity
pub mod Settling
pub mod Invariant
pub mod History
pub mod Exclusion
pub mod Budget
pub mod Accounting
pub mod Acceptance
pub mod Fencing
pub mod Timing
mod Examples
