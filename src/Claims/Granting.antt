-- ===== src/Claims/Granting.antt =====
-- The lease that a claim grants, new or taken up again, with the acquisition of a routine:
-- `_claim_next_execution_once` of backend/runtime/services/claims.py.
use allies_foundry.Base.{
  ℕ, ◌+◌, Bool, true, ◌&&◌, ◌||◌, not, Option, none, some, is_some, [], ◌∷◌, ◌++◌, ◌==◌,
  if◌then◌else◌, length, select, find_first, Result, ok, err, ◌>>=◌, ◌>>◌, refuse, integrity_error,
  not_ready, fenced,
}
use allies_foundry.Models.{
  Store, Workspace, RuntimeProfile, Execution, Attempt, Lease, LeaseState, RoutineExecution,
  RoutineLeaseAcquisition, is_unresolved, seconds,
}
use allies_foundry.Approvals.Service.{find_lease}
use allies_foundry.Leases.Rows.{validate_token_digest, update_lease}
use allies_foundry.Leases.Service.{clashes_any}
use allies_foundry.Claims.Ready.{Settings, profile_is_claim_ready, require_routine_admission}
use allies_foundry.Claims.Expired.{retire_acquisition}
use allies_foundry.Claims.Candidate.{
  Claim, NewKeys, scope_of, find_routine, claim_from_records, is_claimable, claim_attempt,
  start_work,
}

abbrev pub new_lease : ℕ → ℕ → Workspace → RuntimeProfile → Attempt → ℕ → ℕ → ℕ → Lease
new_lease id claim_id workspace profile attempt scope token_digest now = record {
  id = id;
  attempt_id = attempt.id;
  profile_id = profile.id;
  scope_key = scope;
  token_digest = token_digest;
  claim_id = some claim_id;
  expires_at = now + seconds 60;
  machine_generation = workspace.machine_generation;
  state = LeaseState.active;
  current_acquisition = none;
}

-- The first lease of an attempt. The database refuses a clash, and nothing catches its error.
unfoldable pub create_lease :
    ℕ → ℕ → Workspace → RuntimeProfile → Attempt → ℕ → ℕ → ℕ → Store → Result (Store × Lease)
create_lease id claim_id workspace profile attempt scope token_digest now store = do
  let lease = new_lease id claim_id workspace profile attempt scope token_digest now
  validate_token_digest token_digest
  refuse (clashes_any lease store.leases) integrity_error
  ok (record store { leases = store.leases ++ lease ∷ [] }, lease)

-- The lease as a claim takes it up again.
unfoldable pub retaken : ℕ → Workspace → ℕ → ℕ → Lease → Lease
retaken claim_id workspace token_digest now l = record l {
  claim_id = some claim_id;
  token_digest = token_digest;
  expires_at = now + seconds 60;
  machine_generation = workspace.machine_generation;
  state = LeaseState.active;
  current_acquisition = none;
}

-- A lease that was given up is taken up again; a clash is refused in the same way.
unfoldable pub retake_lease : ℕ → Workspace → Lease → ℕ → ℕ → Store → Result (Store × Lease)
unfolding retaken
retake_lease claim_id workspace lease token_digest now store = do
  validate_token_digest token_digest
  refuse
      (clashes_any (retaken claim_id workspace token_digest now lease)
        (select (λ l. not (l.id == lease.id)) store.leases))
      integrity_error
  ok (
    update_lease lease.id (λ l. retaken claim_id workspace token_digest now lease)
        (retire_acquisition lease.id now store),
    retaken claim_id workspace token_digest now lease,
  )

-- The lease of the claim; none where the attempt has one that is not given up.
unfoldable pub grant_lease :
    ℕ
    → ℕ
    → Workspace
    → RuntimeProfile
    → Attempt
    → ℕ
    → ℕ
    → ℕ
    → Store
    → Result (Option (Store × Lease))
unfolding create_lease retake_lease
grant_lease id claim_id workspace profile attempt scope token_digest now store =
    elim (find_lease attempt.id store) [
      | none ↦ (do
        created ← create_lease id claim_id workspace profile attempt scope token_digest now store
        ok (some created))
      | some lease ↦ if is_unresolved lease.state then ok none else (do
        granted ← retake_lease claim_id workspace lease token_digest now store
        ok (some granted))
    ]

-- What the unique columns of the acquisitions do not allow.
unfoldable pub acquisition_clashes : RoutineLeaseAcquisition → RoutineLeaseAcquisition → Bool
acquisition_clashes a b =
    a.id == b.id
    || a.claim_id == b.claim_id
    || a.token_digest == b.token_digest
    || a.lease_id == b.lease_id && (a.ordinal == b.ordinal || a.current && b.current)

abbrev pub new_acquisition : ℕ → ℕ → Workspace → Lease → ℕ → Store → RoutineLeaseAcquisition
new_acquisition id claim_id workspace lease token_digest store = record {
  id = id;
  lease_id = lease.id;
  ordinal = length (select (λ a. a.lease_id == lease.id) store.acquisitions) + 1;
  claim_id = claim_id;
  token_digest = token_digest;
  machine_generation = workspace.machine_generation;
  current = true;
  retired_at = none;
  session_request_digest = none;
  stop_request_digest = none;
  terminal_request_digest = none;
  session_receipt = none;
  stop_receipt = none;
  terminal_receipt = none;
}

-- The acquisition of a lease for a routine; a clash is refused in the same way.
unfoldable pub create_acquisition :
    ℕ → ℕ → Workspace → Lease → ℕ → Store → Result (Store × RoutineLeaseAcquisition)
unfolding acquisition_clashes
create_acquisition id claim_id workspace lease token_digest store = do
  let acquisition = new_acquisition id claim_id workspace lease token_digest store
  validate_token_digest token_digest
  refuse (is_some (find_first (acquisition_clashes acquisition) store.acquisitions)) integrity_error
  ok (
    update_lease lease.id (λ l. record l { current_acquisition = some id })
        (record store { acquisitions = store.acquisitions ++ acquisition ∷ [] }),
    acquisition,
  )

unfoldable pub acquire :
    ℕ
    → ℕ
    → Workspace
    → Option RoutineExecution
    → Lease
    → ℕ
    → Store
    → Result (Store × Option RoutineLeaseAcquisition)
unfolding create_acquisition
acquire id claim_id workspace none lease token_digest store = ok (store, none)
acquire id claim_id workspace (some r) lease token_digest store = do
  created ← create_acquisition id claim_id workspace lease token_digest store
  ok (created.0, some created.1)

-- What became of a candidate; one that was passed over may have been written to.
pub data Candidate : Type 0 where
  passed : Store → Candidate
  unready routine_not_ready routine_fenced : Candidate
  claimed : Store → Claim → Candidate

-- The lease, and the claim.
unfoldable pub grant :
    Settings
    → NewKeys
    → ℕ
    → Workspace
    → RuntimeProfile
    → Execution
    → Option RoutineExecution
    → Attempt
    → ℕ
    → Store
    → Result Candidate
unfolding grant_lease acquire claim_from_records
grant settings keys claim_id workspace profile execution routine attempt now store = do
  let raw_token = settings.claim_token claim_id attempt.id workspace.machine_generation
  let token_digest = settings.digest raw_token
  granted ←
      grant_lease keys.lease claim_id workspace profile attempt (scope_of routine) token_digest now
        store
  elim granted [
    | none ↦ ok (passed store)
    | some done ↦ (do
      acquired ← acquire keys.acquisition claim_id workspace routine done.1 token_digest done.0
      ok (
          claimed acquired.0 (
            claim_from_records settings attempt execution done.1 (some raw_token) acquired.1
              acquired.0)))
  ]

abbrev pub holds_scope : ℕ → ℕ → Lease → Bool
holds_scope profile_id scope l =
    l.profile_id == profile_id && l.scope_key == scope && is_unresolved l.state

-- From the test of the scope on.
unfoldable pub take_candidate :
    Settings
    → NewKeys
    → ℕ
    → Workspace
    → RuntimeProfile
    → Execution
    → Option RoutineExecution
    → ℕ
    → Store
    → Result Candidate
unfolding claim_attempt start_work grant
take_candidate settings keys claim_id workspace profile execution routine now store =
    if is_some (find_first (holds_scope profile.id (scope_of routine)) store.leases)
    then ok (passed store)
    else (claim_attempt keys.attempt claim_id workspace execution routine now store >>= λ prepared.
        elim prepared [
          | none ↦ ok (passed store)
          | some done ↦
              grant settings keys claim_id workspace profile execution routine done.1 now
                (start_work workspace execution routine done.1 done.0)
        ])

unfoldable pub admit_candidate : Result (Unit {0}) → Result Candidate → Result Candidate
admit_candidate (ok answer) rest = rest
admit_candidate (err not_ready) rest = ok routine_not_ready
admit_candidate (err fenced) rest = ok routine_fenced
admit_candidate (err e) rest = err e

-- The body of the loop.
unfoldable pub consider : Settings → NewKeys → ℕ → Workspace → ℕ → ℕ → Store → Result Candidate
unfolding take_candidate admit_candidate is_claimable
consider settings keys claim_id workspace now execution_id store =
    elim (find_first (λ e. e.id == execution_id) store.executions) [
      | none ↦ ok (passed store)
      | some hint ↦
          elim (find_first (λ p. p.id == hint.profile_id && p.workspace_id == workspace.id)
            store.profiles) [
              | none ↦ ok (passed store)
              | some profile ↦
                  elim (find_first (λ e. e.id == execution_id && e.workspace_id == workspace.id)
                    store.executions) [
                      | none ↦ ok (passed store)
                      | some execution ↦
                          let routine = find_routine execution.id store in
                          let rest =
                            take_candidate settings keys claim_id workspace profile execution
                              routine now store in
                          if not (is_claimable routine execution store)
                          then ok (passed store)
                          else if not (profile_is_claim_ready profile workspace.machine_generation)
                          then ok unready
                          else if is_some routine
                          then admit_candidate (require_routine_admission settings workspace now)
                              rest
                          else rest
                    ]
            ]
    ]
