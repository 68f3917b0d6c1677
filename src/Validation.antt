-- ===== src/Validation.antt =====
-- Checks of JSON payloads: backend/runtime/services/validation.py.
pub mod Json
pub mod Depth
mod Examples
