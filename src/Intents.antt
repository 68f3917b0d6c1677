-- ===== src/Intents.antt =====
-- Wishes to wake a workspace: backend/runtime/services/runtime_intents.py.
pub mod Requests
pub mod Waking
pub mod Replay
pub mod Identity
mod Examples
