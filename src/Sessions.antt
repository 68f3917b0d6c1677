-- ===== src/Sessions.antt =====
-- The sessions of conversations and routines: backend/runtime/services/sessions.py.
pub mod Bindings
pub mod Service
pub mod Found
pub mod Recorded
pub mod Replay
pub mod Sharing
pub mod Conversations
pub mod Accepted
pub mod Comparing
mod Examples
