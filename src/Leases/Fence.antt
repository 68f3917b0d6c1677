-- ===== src/Leases/Fence.antt =====
-- `confirm_machine_stopped_and_fence` of backend/runtime/services/leases.py: the leases of a Machine
-- that was replaced are retired.
use allies_foundry.Base.{
  ℕ, ◌+◌, ◌-◌, Bool, true, false, ◌&&◌, ◌||◌, not, Option, some, is_some, List, [], ◌∷◌, ltb, leb,
  ◌==◌, if◌then◌else◌, opt_eq, text_eq, select, map, member, find_first, Result, ok, ◌>>=◌, ◌>>◌,
  ensure, refuse, or_raise, validation, conflict, does_not_exist,
}
use allies_foundry.Models.{
  Store, Workspace, Execution, ExecutionStatus, Attempt, AttemptStatus, Lease, LeaseState,
  ExecutionEvent, WorkspaceProvisioningKind, WorkspaceProvisioningPhase, is_unresolved, is_live,
}
use allies_foundry.Approvals.Service.{find_workspace, find_execution, cancel_live_approval_requests}
use allies_foundry.Leases.Rows.{
  find_profile, save_lease_state, update_attempt, save_execution_status,
}

pub record Counts : Type 0 where
  pub fenced : ℕ
  pub requeued : ℕ

-- The guards of `fence_once` on the workspace, in their order.
unfoldable pub check_fence : Workspace → ℕ → ℕ → Option ℕ → Result (Unit {0})
check_fence workspace source target machine_ref = do
  refuse (ltb workspace.machine_generation target) conflict
  refuse (ltb target workspace.machine_generation) conflict
  ensure (source == target - 1) conflict
  ensure
      (elim workspace.provisioning_kind [
        | some WorkspaceProvisioningKind.replace ↦ true
        | _ ↦ false
      ])
      conflict
  ensure
      (opt_eq workspace.provisioning_source_generation (some source)
        && opt_eq workspace.provisioning_target_generation (some target))
      conflict
  ensure
      (elim workspace.provisioning_phase [
        | WorkspaceProvisioningPhase.old_machine_stopped ↦ true
        | WorkspaceProvisioningPhase.old_machine_destroyed ↦ true
        | _ ↦ false
      ])
      conflict
  ensure (opt_eq workspace.provisioning_previous_machine_ref machine_ref) conflict

-- The filter of the leases of one profile.
unfoldable pub is_retired : ℕ → ℕ → Lease → Bool
is_retired profile_id source l =
    l.profile_id == profile_id && l.machine_generation == source && is_unresolved l.state

-- `checkpointed_attempt_ids`: the attempts of these leases that have a dispatch event.
unfoldable pub checkpointed_attempts : List Lease → List ExecutionEvent → List ℕ
checkpointed_attempts leases events =
    map (λ e. e.attempt_id)
      (select
        (λ e.
          member e.attempt_id (map (λ l. l.attempt_id) leases)
          && text_eq e.event_type "execution.dispatched")
        events)

unfoldable pub is_running : ExecutionStatus → Bool
is_running ExecutionStatus.running = true
is_running _ = false

-- The writes for one lease, and what it adds to the counts.
unfoldable pub retire : Lease → Attempt → Execution → Bool → Store → Store × Counts
unfolding is_running
retire lease attempt execution checkpointed store =
    let fenced = save_lease_state lease LeaseState.fenced store in
    let unknown =
      update_attempt attempt.id (λ a. record a { status = AttemptStatus.unknown }) fenced in
    let status = if checkpointed then ExecutionStatus.failed else ExecutionStatus.queued in
    if is_live attempt.status
    then (if is_running execution.status
        then (
          save_execution_status execution status unknown,
          record { fenced = 1; requeued = if checkpointed then 0 else 1 },
        )
        else (unknown, record { fenced = 1; requeued = 0 }))
    else (fenced, record { fenced = 1; requeued = 0 })

-- The body of the inner loop.
unfoldable pub fence_lease : List ℕ → ℕ → ℕ → Store → Result (Store × Counts)
unfolding retire
fence_lease checkpointed_ids lease_id now store = do
  lease ← or_raise (find_first (λ l. l.id == lease_id) store.leases) does_not_exist
  if not (is_unresolved lease.state) then ok (store, record { fenced = 0; requeued = 0 }) else (do
    attempt ← or_raise (find_first (λ a. a.id == lease.attempt_id) store.attempts) does_not_exist
    execution ← or_raise (find_execution attempt.execution_id store) does_not_exist
    let checkpointed = member attempt.id checkpointed_ids || is_some attempt.session_request_digest
    let written = retire lease attempt execution checkpointed store
    ok (cancel_live_approval_requests attempt.id now written.0, written.1))

abbrev add : Counts → Counts → Counts
add a b = record { fenced = a.fenced + b.fenced; requeued = a.requeued + b.requeued }

-- The inner loop.
unfoldable pub fence_leases : List ℕ → List ℕ → ℕ → Store → Result (Store × Counts)
fence_leases checkpointed_ids [] now store = ok (store, record { fenced = 0; requeued = 0 })
fence_leases checkpointed_ids (k ∷ ks) now store = do
  first ← fence_lease checkpointed_ids k now store
  rest ← fence_leases checkpointed_ids ks now first.0
  ok (rest.0, add first.1 rest.1)

-- The body of the outer loop: `get` of the profile, then its leases.
unfoldable pub fence_profile : ℕ → ℕ → ℕ → Store → Result (Store × Counts)
unfolding is_retired checkpointed_attempts
fence_profile source profile_id now store = do
  profile ← or_raise (find_profile profile_id store) does_not_exist
  let leases = select (is_retired profile_id source) store.leases
  fence_leases (checkpointed_attempts leases store.events) (map (λ l. l.id) leases) now store

-- The outer loop.
unfoldable pub fence_profiles : ℕ → List ℕ → ℕ → Store → Result (Store × Counts)
fence_profiles source [] now store = ok (store, record { fenced = 0; requeued = 0 })
fence_profiles source (k ∷ ks) now store = do
  first ← fence_profile source k now store
  rest ← fence_profiles source ks now first.0
  ok (rest.0, add first.1 rest.1)

-- `confirm_machine_stopped_and_fence`; the receipt repeats its arguments beside the counts.
unfoldable pub confirm_machine_stopped_and_fence :
    ℕ → ℕ → ℕ → Option ℕ → ℕ → Store → Result (Store × Counts)
confirm_machine_stopped_and_fence workspace_id source target machine_ref now store = do
  refuse (leb target source) validation
  workspace ← or_raise (find_workspace workspace_id store) does_not_exist
  check_fence workspace source target machine_ref
  let profiles = select (λ p. p.workspace_id == workspace.id) store.profiles
  fence_profiles source (map (λ p. p.id) profiles) now store
