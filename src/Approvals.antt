-- ===== src/Approvals.antt =====
-- Live approval requests: backend/runtime/services/approvals.py.
pub mod Requests
pub mod Service
pub mod Creation
pub mod Lifecycle
pub mod History
pub mod Decisions
pub mod Replay
mod Examples
