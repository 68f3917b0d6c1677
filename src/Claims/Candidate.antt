-- ===== src/Claims/Candidate.antt =====
-- One candidate of a claim: the body of the loop of `_claim_next_execution_once` of
-- backend/runtime/services/claims.py.
use mathlib.Core.Option
use allies_foundry.Base.{
  ℕ, suc, ◌+◌, Bool, true, false, ◌&&◌, ◌||◌, Option, none, some, is_some, List, [], ◌∷◌, ◌++◌, max,
  ◌==◌, if◌then◌else◌, opt_eq, text_eq, find_first, Result, ok, ◌>>=◌, ◌>>◌, refuse, or_raise,
  idempotency_conflict, does_not_exist,
}
use allies_foundry.Models.{
  Store, Workspace, Execution, ExecutionStatus, Attempt, AttemptStatus, Lease, RoutineExecution,
  RoutineRunStatus, RoutineApprovalStatus, RoutineLeaseAcquisition,
}
use allies_foundry.Leases.Rows.{update_attempt, save_execution_status}
use allies_foundry.Leases.Service.{main_scope}
use allies_foundry.Claims.Ready.{Settings}
use allies_foundry.Claims.Expired.{update_routine}

-- What a claim hands out. Its other fields repeat columns of the profile, of its conversation and of
-- the execution.
pub record Claim : Type 0 where
  pub attempt_id : ℕ
  pub execution_id : ℕ
  pub profile_id : ℕ
  pub lease_id : ℕ
  pub lease_token : ℕ
  pub expires_at : ℕ
  pub claim_id : ℕ
  pub routine_id : Option ℕ

-- The keys that a claim draws for its new rows.
pub record NewKeys : Type 0 where
  pub attempt : ℕ
  pub lease : ℕ
  pub acquisition : ℕ

-- `routine_scope_key`, which is never "main".
unfoldable pub routine_scope_key : ℕ → ℕ
routine_scope_key routine_id = suc routine_id

unfoldable pub scope_of : Option RoutineExecution → ℕ
unfolding routine_scope_key
scope_of none = main_scope
scope_of (some r) = routine_scope_key r.routine_id

abbrev pub find_routine : ℕ → Store → Option RoutineExecution
find_routine execution_id store = find_first (λ r. r.execution_id == execution_id) store.routines

abbrev pub or_else : Option ℕ → ℕ → ℕ
or_else none d = d
or_else (some n) d = n

-- `acquisition.claim_id or attempt.claim_id or lease.claim_id or attempt.id`.
unfoldable pub claim_id_of : Attempt → Lease → Option RoutineLeaseAcquisition → ℕ
claim_id_of attempt lease none = or_else attempt.claim_id (or_else lease.claim_id attempt.id)
claim_id_of attempt lease (some a) = a.claim_id

-- `_claim_from_records`; the token is that of the caller, or is computed again.
unfoldable pub claim_from_records :
    Settings
    → Attempt
    → Execution
    → Lease
    → Option ℕ
    → Option RoutineLeaseAcquisition
    → Store
    → Claim
unfolding claim_id_of
claim_from_records settings attempt execution lease raw_token acquisition store = record {
  attempt_id = attempt.id;
  execution_id = attempt.execution_id;
  profile_id = execution.profile_id;
  lease_id = lease.id;
  lease_token = or_else raw_token (
      settings.claim_token (claim_id_of attempt lease acquisition) attempt.id
        lease.machine_generation);
  expires_at = lease.expires_at;
  claim_id = claim_id_of attempt lease acquisition;
  routine_id =
      if text_eq execution.source_kind "routine_dispatch"
      then Option.map (λ r. r.routine_id) (find_routine attempt.execution_id store)
      else none;
}

abbrev pub is_queued : ExecutionStatus → Bool
is_queued ExecutionStatus.queued = true
is_queued _ = false

abbrev pub is_working : ExecutionStatus → Bool
is_working ExecutionStatus.running = true
is_working _ = false

-- An approval action of the routine is being authorized.
unfoldable pub is_authorizing : ℕ → Store → Bool
is_authorizing routine_id store = is_some (
    find_first
      (λ a.
        a.routine_execution_id == routine_id
        && (elim a.status [ RoutineApprovalStatus.authorizing ↦ true | _ ↦ false ]))
      store.actions)

-- Whether the state of the routine and that of the execution fit a claim.
unfoldable pub is_claimable : Option RoutineExecution → Execution → Store → Bool
unfolding is_authorizing
is_claimable none execution store = is_queued execution.status
is_claimable (some r) execution store = elim r.status [
  | RoutineRunStatus.queued ↦ is_queued execution.status
  | RoutineRunStatus.working ↦ is_working execution.status && is_authorizing r.id store
  | _ ↦ false
]

-- The largest number of an attempt of the execution, 0 where there is none.
unfoldable pub latest_number : ℕ → List Attempt → ℕ
latest_number execution_id [] = 0
latest_number execution_id (a ∷ as') =
    let rest = latest_number execution_id as' in
    if a.execution_id == execution_id then max a.number rest else rest

unfoldable pub new_attempt : ℕ → Execution → ℕ → ℕ → Option ℕ → ℕ → Attempt
new_attempt id execution number generation claim_id now = record {
  id = id;
  execution_id = execution.id;
  number = number;
  status = AttemptStatus.running;
  machine_generation = generation;
  claim_id = claim_id;
  claimed_at = some now;
  terminal_request_digest = none;
  terminal_lease_digest = none;
  terminal_receipt = none;
  terminal_receipt_id = none;
  stopped_request_digest = none;
  stopped_lease_digest = none;
  stopped_receipt = none;
  session_request_digest = none;
  session_lease_digest = none;
  session_receipt = none;
}

-- What the keys and the unique columns of the attempts do not allow.
unfoldable pub attempt_clashes : Attempt → Attempt → Bool
attempt_clashes a b =
    a.id == b.id
    || a.execution_id == b.execution_id && a.number == b.number
    || is_some a.claim_id && opt_eq a.claim_id b.claim_id

-- A new attempt of the execution; the claim of a routine stands with its acquisition.
unfoldable pub create_attempt :
    ℕ → ℕ → Workspace → Execution → Option RoutineExecution → ℕ → Store → Result (Store × Attempt)
unfolding latest_number new_attempt attempt_clashes
create_attempt id claim_id workspace execution routine now store = do
  let number = latest_number execution.id store.attempts + 1
  let claim = if is_some routine then none else some claim_id
  let attempt = new_attempt id execution number workspace.machine_generation claim now
  refuse (is_some (find_first (attempt_clashes attempt) store.attempts)) idempotency_conflict
  ok (record store { attempts = store.attempts ++ attempt ∷ [] }, attempt)

abbrev pub is_waiting : AttemptStatus → Bool
is_waiting AttemptStatus.queued = true
is_waiting _ = false

-- The current attempt of a routine runs again; none where it is not queued.
unfoldable pub resume_attempt : ℕ → Workspace → ℕ → Store → Result (Option (Store × Attempt))
resume_attempt attempt_id workspace now store = do
  attempt ← or_raise (find_first (λ a. a.id == attempt_id) store.attempts) does_not_exist
  let resumed = record attempt {
    status = AttemptStatus.running;
    machine_generation = workspace.machine_generation;
    claimed_at = some now;
  }
  if is_waiting attempt.status
      then ok (
          some (
            update_attempt attempt.id
                (λ a. record a {
                  status = AttemptStatus.running;
                  machine_generation = workspace.machine_generation;
                  claimed_at = some now;
                })
                store,
            resumed,
          ))
      else ok none

abbrev pub current_attempt : Option RoutineExecution → Option ℕ
current_attempt none = none
current_attempt (some r) = r.current_attempt_id

-- The attempt that a claim is for.
unfoldable pub claim_attempt :
    ℕ
    → ℕ
    → Workspace
    → Execution
    → Option RoutineExecution
    → ℕ
    → Store
    → Result (Option (Store × Attempt))
unfolding create_attempt resume_attempt
claim_attempt id claim_id workspace execution routine now store = elim (current_attempt routine) [
  | some attempt_id ↦ resume_attempt attempt_id workspace now store
  | none ↦ (do
    created ← create_attempt id claim_id workspace execution routine now store
    ok (some created))
]

-- The execution and its routine run.
unfoldable pub start_work :
    Workspace → Execution → Option RoutineExecution → Attempt → Store → Store
start_work workspace execution routine attempt store =
    update_routine routine
      (λ r. record r {
        status = RoutineRunStatus.working;
        generation = workspace.machine_generation;
        current_attempt_id = some attempt.id;
      })
      (save_execution_status execution ExecutionStatus.running store)
