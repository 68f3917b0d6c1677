-- ===== src/Events.antt =====
-- The events of an execution: backend/runtime/services/events.py.
pub mod Append
pub mod Effects
pub mod Appended
pub mod Frame
pub mod Expiry
pub mod Numbering
pub mod History
pub mod Replay
mod Examples
