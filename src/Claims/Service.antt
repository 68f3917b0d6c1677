-- ===== src/Claims/Service.antt =====
-- `claim_next_execution` of backend/runtime/services/claims.py, within its retry.
use allies_foundry.Base.{
  ℕ, Bool, true, false, ◌&&◌, ◌||◌, Option, none, some, List, [], ◌∷◌, leb, ◌==◌, if◌then◌else◌,
  opt_eq, text_eq, select, map, find_first, Result, ok, ◌>>=◌, ◌>>◌, ensure, refuse, or_raise,
  validation, conflict, fenced, not_ready, lease_conflict, idempotency_conflict, does_not_exist,
}
use allies_foundry.Models.{
  Store, Workspace, Execution, Attempt, Lease, RoutineLeaseAcquisition, RuntimeContext,
}
use allies_foundry.Delivery.Repair.{Wire}
use allies_foundry.Approvals.Service.{find_workspace, find_execution, find_lease}
use allies_foundry.Leases.Rows.{find_profile}
use allies_foundry.Events.Append.{Fresh}
use allies_foundry.Events.Expiry.{Expiry}
use allies_foundry.Claims.Ready.{
  Settings, has_machine, profile_is_claim_ready, require_routine_admission,
  require_current_runtime_ready_locked,
}
use allies_foundry.Claims.Expired.{reconcile_expired_leases}
use allies_foundry.Claims.Candidate.{Claim, NewKeys, claim_from_records, is_queued, is_working}
use allies_foundry.Claims.Granting.{
  Candidate, passed, unready, routine_not_ready, routine_fenced, claimed, consider,
}

-- The answer to a claim that an attempt stands for.
unfoldable pub replay_attempt : Settings → Workspace → Attempt → ℕ → Store → Result (Option Claim)
replay_attempt settings workspace attempt now store = do
  execution ← or_raise (find_execution attempt.execution_id store) does_not_exist
  ensure (execution.workspace_id == workspace.id) idempotency_conflict
  lease ← or_raise (find_lease attempt.id store) conflict
  ensure
      (attempt.machine_generation == workspace.machine_generation
        && lease.machine_generation == workspace.machine_generation)
      idempotency_conflict
  profile ← or_raise (find_profile execution.profile_id store) does_not_exist
  ensure (profile_is_claim_ready profile workspace.machine_generation) fenced
  (if text_eq execution.source_kind "routine_dispatch"
      then require_routine_admission settings workspace now
      else ok tt)
  ok (
      if leb lease.expires_at now
      then none
      else some (claim_from_records settings attempt execution lease none none store))

-- The answer to a claim that the acquisition of a routine stands for.
unfoldable pub replay_acquisition :
    Settings → Workspace → RoutineLeaseAcquisition → ℕ → Store → Result (Option Claim)
replay_acquisition settings workspace acquisition now store = do
  lease ← or_raise (find_first (λ l. l.id == acquisition.lease_id) store.leases) does_not_exist
  attempt ← or_raise (find_first (λ a. a.id == lease.attempt_id) store.attempts) does_not_exist
  execution ← or_raise (find_execution attempt.execution_id store) does_not_exist
  ensure (execution.workspace_id == workspace.id) idempotency_conflict
  ensure
      (attempt.machine_generation == workspace.machine_generation
        && lease.machine_generation == workspace.machine_generation
        && acquisition.current)
      idempotency_conflict
  require_routine_admission settings workspace now
  ok (
      if leb lease.expires_at now
      then none
      else some (claim_from_records settings attempt execution lease none (some acquisition) store))

-- What was seen of the candidates so far.
pub record Seen : Type 0 where
  pub unready_profile : Bool
  pub routine_not_ready : Bool
  pub routine_fenced : Bool

-- How a claim without a candidate ends.
unfoldable pub nothing_claimed : Seen → Store → Result (Store × Option Claim)
nothing_claimed seen store = do
  refuse seen.unready_profile not_ready
  refuse seen.routine_fenced fenced
  refuse seen.routine_not_ready not_ready
  ok (store, none)

-- What follows a candidate, where `rest` goes on with the others.
unfoldable pub after_candidate :
    Candidate
    → Seen
    → Store
    → (Seen → Store → Result (Store × Option Claim))
    → Result (Store × Option Claim)
after_candidate (passed s) seen store rest = rest seen s
after_candidate unready seen store rest = rest (record seen { unready_profile = true }) store
after_candidate routine_not_ready seen store rest =
    rest (record seen { routine_not_ready = true }) store
after_candidate routine_fenced seen store rest = rest (record seen { routine_fenced = true }) store
after_candidate (claimed s claim) seen store rest = ok (s, some claim)

-- The loop over the candidates.
unfoldable pub claim_first :
    Settings → NewKeys → ℕ → Workspace → ℕ → List ℕ → Seen → Store → Result (Store × Option Claim)
unfolding nothing_claimed after_candidate
claim_first settings keys claim_id workspace now [] seen store = nothing_claimed seen store
claim_first settings keys claim_id workspace now (k ∷ ks) seen store = do
  candidate ← consider settings keys claim_id workspace now k store
  after_candidate candidate seen store (claim_first settings keys claim_id workspace now ks)

-- The filter of the candidates.
unfoldable pub is_candidate : Workspace → Execution → Bool
is_candidate workspace e =
    e.workspace_id == workspace.id
    && (is_queued e.status || is_working e.status && text_eq e.source_kind "routine_dispatch")

-- The orders of the two queries, and the keys for new rows.
pub record Database : Type 0 where
  pub by_expiry : List Lease → List Lease
  pub by_creation : List Execution → List Execution
  pub keys : NewKeys
  pub fresh : ℕ → Fresh

unfoldable pub claim_new :
    Settings → Database → ℕ → Workspace → ℕ → Store → Result (Store × Option Claim)
unfolding is_candidate claim_first
claim_new settings database claim_id workspace now store =
    claim_first settings database.keys claim_id workspace now
      (map (λ e. e.id) (database.by_creation (select (is_candidate workspace) store.executions)))
      (record { unready_profile = false; routine_not_ready = false; routine_fenced = false }) store

-- What a claim does once the expired leases are closed.
unfoldable pub claim_reconciled :
    Settings → Database → ℕ → Workspace → ℕ → Store → Result (Store × Option Claim)
unfolding claim_new replay_attempt replay_acquisition
claim_reconciled settings database claim_id workspace now store =
    elim (find_first (λ a. opt_eq a.claim_id (some claim_id)) store.attempts) [
      | some attempt ↦ (do
        answer ← replay_attempt settings workspace attempt now store
        ok (store, answer))
      | none ↦ elim (find_first (λ a. a.claim_id == claim_id) store.acquisitions) [
        | some acquisition ↦ (do
          answer ← replay_acquisition settings workspace acquisition now store
          ok (store, answer))
        | none ↦ claim_new settings database claim_id workspace now store
      ]
    ]

-- `_record_terminal_failure_result` of backend/runtime/services/routines.py on the key of a routine.
module _ (w : Store → Wire) (x : Expiry) (settings : Settings) (database : Database)
    (record_failure : ℕ → Store → Result Store) where
  -- `_claim_next_execution_once`; the clock is read once.
  unfoldable pub claim_next_execution_once :
      RuntimeContext → ℕ → ℕ → Store → Result (Store × Option Claim)
  claim_next_execution_once context claim_id now store = do
    workspace ← or_raise (find_workspace context.workspace_id store) lease_conflict
    ensure (workspace.machine_generation == context.machine_generation) fenced
    ensure (has_machine workspace) not_ready
    require_current_runtime_ready_locked settings workspace context now
    reconciled ←
        reconcile_expired_leases w x settings record_failure database.by_expiry database.fresh
          workspace now store
    claim_reconciled settings database claim_id workspace now reconciled

  -- `claim_next_execution` with a slot count that is a number.
  unfoldable pub claim_next_execution :
      RuntimeContext → ℕ → ℕ → ℕ → Store → Result (Store × Option Claim)
  unfolding claim_next_execution_once
  claim_next_execution context claim_id available_slots now store = do
    ensure (leb 1 available_slots && leb available_slots 8) validation
    claim_next_execution_once context claim_id now store
