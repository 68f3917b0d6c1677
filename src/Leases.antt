-- ===== src/Leases.antt =====
-- Leases of attempts and what ends them: backend/runtime/services/leases.py, attempts.py and
-- retry.py.
pub mod Rows
pub mod Mutation
pub mod Service
pub mod Finish
pub mod Retry
pub mod Locking
pub mod Replay
pub mod FinishReplay
pub mod Fence
pub mod Moves
pub mod Moving
pub mod Stopping
pub mod Finishing
pub mod Finished
pub mod FinishRule
pub mod Retiring
pub mod History
pub mod Mutating
pub mod Renewal
pub mod Fenced
pub mod Cleared
mod Examples
