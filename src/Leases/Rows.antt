-- ===== src/Leases/Rows.antt =====
-- The rows that backend/runtime/services/leases.py and attempts.py lock before they write, and
-- their writes. `save(update_fields=…)` rewrites the named columns of the row with the object's key.
use allies_foundry.Base.{
  ℕ, ◌^◌, Bool, Option, ltb, ◌==◌, find_first, update_where, Result, ok, ◌>>=◌, ◌>>◌, ensure,
  or_raise, validation, fenced, lease_conflict, does_not_exist,
}
use allies_foundry.Models.{
  Store, Workspace, RuntimeProfile, Execution, ExecutionStatus, Attempt, Lease, LeaseState,
  RuntimeContext,
}
use allies_foundry.Approvals.Service.{find_workspace, find_execution, find_attempt}

-- `validate_token_digest`. A digest of 64 lower-case hexadecimal digits stands as its value; every
-- other text stands as a number above these.
unfoldable pub validate_token_digest : ℕ → Result (Unit {0})
validate_token_digest digest = ensure (ltb digest (2 ^ 256)) validation

abbrev pub find_profile : ℕ → Store → Option RuntimeProfile
find_profile k store = find_first (λ p. p.id == k) store.profiles

abbrev pub update_lease : ℕ → (Lease → Lease) → Store → Store
update_lease k f store = record store { leases = update_where (λ l. l.id == k) f store.leases }

abbrev pub save_lease_state : Lease → LeaseState → Store → Store
save_lease_state lease state store = update_lease lease.id (λ l. record l { state = state }) store

abbrev pub update_attempt : ℕ → (Attempt → Attempt) → Store → Store
update_attempt k f store = record store {
  attempts = update_where (λ a. a.id == k) f store.attempts;
}

abbrev pub save_execution_status : Execution → ExecutionStatus → Store → Store
save_execution_status execution status store = record store {
  executions =
      update_where (λ e. e.id == execution.id) (λ e. record e { status = status }) store.executions;
}

pub record Locked : Type 0 where
  pub workspace : Workspace
  pub attempt : Attempt
  pub execution : Execution
  pub profile : RuntimeProfile

-- How `renew_once`, `stop_once` and `finish_once` begin, with `_check_runtime_workspace`; `admits`
-- is what `finish_once` excludes by the execution.
unfoldable pub lock_rows : (Execution → Bool) → RuntimeContext → ℕ → Store → Result Locked
lock_rows admits context attempt_id store = do
  workspace ← or_raise (find_workspace context.workspace_id store) does_not_exist
  ensure (workspace.machine_generation == context.machine_generation) fenced
  attempt ← or_raise (find_attempt attempt_id workspace.id store) lease_conflict
  execution ← or_raise (find_execution attempt.execution_id store) does_not_exist
  ensure (admits execution) lease_conflict
  profile ← or_raise (find_profile execution.profile_id store) does_not_exist
  ok (record { workspace = workspace; attempt = attempt; execution = execution; profile = profile })
