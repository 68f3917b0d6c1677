-- ===== src/Claims.antt =====
-- Claims of work by a Machine: backend/runtime/services/claims.py.
pub mod Ready
pub mod Expired
pub mod Candidate
pub mod Granting
pub mod Service
pub mod Leasing
pub mod Reconciling
pub mod Rule
pub mod Handing
pub mod Handed
pub mod Exclusive
pub mod Checkpoint
mod Examples
