-- ===== src/Claims/Expired.antt =====
-- `_reconcile_expired_leases` of backend/runtime/services/claims.py: a lease that has run out is
-- closed, and the work of its attempt is queued again or fails.
use allies_foundry.Base.{
  ℕ, Bool, true, false, ◌&&◌, ◌||◌, not, Option, none, some, is_some, List, [], ◌∷◌, leb, ◌==◌,
  if◌then◌else◌, text_eq, take, select, find_first, update_where, Result, ok, err, ◌>>=◌, not_ready,
  fenced,
}
use allies_foundry.Models.{
  Store, Workspace, RuntimeProfile, Execution, ExecutionStatus, Attempt, AttemptStatus, Lease,
  LeaseState, RoutineExecution, RoutineRunStatus, RoutineLeaseAcquisition, is_live, is_unresolved,
}
use allies_foundry.Delivery.Repair.{Wire}
use allies_foundry.Approvals.Service.{find_execution, find_attempt, cancel_live_approval_requests}
use allies_foundry.Leases.Rows.{find_profile, update_lease, update_attempt, save_execution_status}
use allies_foundry.Leases.Service.{is_cleanup_pending, has_dispatched, current_routine}
use allies_foundry.Events.Append.{Fresh}
use allies_foundry.Events.Expiry.{Expiry, append_lease_expired_failure}
use allies_foundry.Claims.Ready.{Settings, profile_is_claim_ready, require_routine_admission}

-- A column of these is not null.
unfoldable pub is_checkpointed : RoutineLeaseAcquisition → Bool
is_checkpointed a =
    is_some a.session_request_digest
    || is_some a.session_receipt
    || is_some a.stop_request_digest
    || is_some a.stop_receipt
    || is_some a.terminal_request_digest
    || is_some a.terminal_receipt

-- `_has_replay_checkpoint`.
unfoldable pub has_replay_checkpoint : Attempt → Execution → Store → Bool
unfolding is_checkpointed has_dispatched
has_replay_checkpoint attempt execution store =
    let attempt_checkpoint =
      is_some attempt.session_request_digest
      || is_some attempt.session_receipt
      || has_dispatched attempt.id store.events in
    if attempt_checkpoint || not (text_eq execution.source_kind "routine_dispatch")
    then attempt_checkpoint
    else is_some (
        find_first
          (λ a.
            is_some
              (find_first (λ l. l.id == a.lease_id && l.attempt_id == attempt.id) store.leases)
            && is_checkpointed a)
          store.acquisitions)

unfoldable pub is_retired_for : Workspace → RuntimeProfile → Attempt → Lease → Bool
is_retired_for workspace profile attempt lease =
    not (lease.machine_generation == workspace.machine_generation)
    || not (attempt.machine_generation == workspace.machine_generation)
    || not (lease.profile_id == profile.id)

abbrev pub is_open : ExecutionStatus → Bool
is_open ExecutionStatus.queued = true
is_open ExecutionStatus.running = true
is_open _ = false

-- Whether the work of the attempt may be queued again, before the routine is asked.
unfoldable pub is_replayable :
    Workspace → RuntimeProfile → Attempt → Execution → Lease → Store → Bool
unfolding is_retired_for has_replay_checkpoint
is_replayable workspace profile attempt execution lease store =
    is_live attempt.status
    && is_open execution.status
    && not (is_retired_for workspace profile attempt lease)
    && not (is_cleanup_pending profile)
    && profile_is_claim_ready profile workspace.machine_generation
    && not (has_replay_checkpoint attempt execution store)

-- `replayable` and `retired`, once the routine has been asked.
unfoldable pub admit_replay :
    Option RoutineExecution → Bool → Bool → Result (Unit {0}) → Result (Bool × Bool)
admit_replay none replayable retired answer = ok (replayable, retired)
admit_replay (some r) false retired answer = ok (false, retired)
admit_replay (some r) true retired (ok answer) = ok (true, retired)
admit_replay (some r) true retired (err not_ready) = ok (true, retired)
admit_replay (some r) true retired (err fenced) = ok (false, true)
admit_replay (some r) true retired (err e) = err e

abbrev pub update_routine :
    Option RoutineExecution → (RoutineExecution → RoutineExecution) → Store → Store
update_routine none f store = store
update_routine (some r) f store = record store {
  routines = update_where (λ x. x.id == r.id) f store.routines;
}

-- The current acquisition of a lease is retired.
unfoldable pub retire_acquisition : ℕ → ℕ → Store → Store
retire_acquisition lease_id now store =
    elim (find_first (λ a. a.lease_id == lease_id && a.current) store.acquisitions) [
      | none ↦ store
      | some a ↦ record store {
        acquisitions =
            update_where (λ x. x.id == a.id)
              (λ x. record x { current = false; retired_at = some now }) store.acquisitions;
      }
    ]

abbrev pub retire_routine_acquisition : Option RoutineExecution → ℕ → ℕ → Store → Store
retire_routine_acquisition none lease_id now store = store
retire_routine_acquisition (some r) lease_id now store = retire_acquisition lease_id now store

abbrev pub close_lease : Lease → LeaseState → Store → Store
close_lease lease state store =
    update_lease lease.id (λ l. record l { state = state; current_acquisition = none }) store

-- The writes where the work is queued again.
unfoldable pub requeue_expired :
    Attempt → Execution → Lease → Option RoutineExecution → ℕ → Store → Store
unfolding retire_acquisition
requeue_expired attempt execution lease routine now store = close_lease lease LeaseState.released (
    cancel_live_approval_requests attempt.id now (
      retire_routine_acquisition routine lease.id now (
        update_routine routine (λ r. record r { status = RoutineRunStatus.queued })
          (save_execution_status execution ExecutionStatus.queued (
            update_attempt attempt.id
              (λ a. record a {
                status = if is_some routine then AttemptStatus.queued else AttemptStatus.unknown;
              })
              store)))))

-- The statuses SUCCEEDED, FAILED, CANCELLED and EXPIRED.
abbrev pub is_final : RoutineRunStatus → Bool
is_final RoutineRunStatus.succeeded = true
is_final RoutineRunStatus.failed = true
is_final RoutineRunStatus.cancelled = true
is_final RoutineRunStatus.expired = true
is_final _ = false

-- The routine, where it has not ended.
abbrev pub unfinished : Option RoutineExecution → Option RoutineExecution
unfinished none = none
unfinished (some r) = if is_final r.status then none else some r

abbrev pub has_ended : ExecutionStatus → Bool
has_ended ExecutionStatus.succeeded = true
has_ended ExecutionStatus.failed = true
has_ended ExecutionStatus.cancelled = true
has_ended _ = false

-- The last writes for work that fails, without the terminal receipt of the routine.
unfoldable pub write_failure : Attempt → Execution → Option RoutineExecution → Store → Store
write_failure attempt execution routine store =
    let unknown =
      update_attempt attempt.id (λ a. record a { status = AttemptStatus.unknown }) store in
    update_routine (unfinished routine) (λ r. record r { status = RoutineRunStatus.failed })
      (if has_ended execution.status
        then unknown
        else save_execution_status execution ExecutionStatus.failed unknown)

-- The last writes of every lease that is not queued again.
unfoldable pub close_expired : Attempt → Lease → Option RoutineExecution → Bool → ℕ → Store → Store
unfolding retire_acquisition
close_expired attempt lease routine fences now store =
    close_lease lease (if fences then LeaseState.fenced else LeaseState.released) (
      retire_routine_acquisition routine lease.id now
        (cancel_live_approval_requests attempt.id now store))

-- `_record_terminal_failure_result` of backend/runtime/services/routines.py on the key of a routine.
module _ (w : Store → Wire) (x : Expiry) (settings : Settings)
    (record_failure : ℕ → Store → Result Store) where
  unfoldable pub append_failure :
      Fresh → RuntimeProfile → Attempt → Lease → ℕ → Store → Result Store
  append_failure ids profile attempt lease now store =
      if is_cleanup_pending profile
      then ok store
      else (do done ← append_lease_expired_failure w x ids attempt lease now store; ok done.0)

  unfoldable pub record_unfinished : Option RoutineExecution → Store → Result Store
  record_unfinished none store = ok store
  record_unfinished (some r) store = record_failure r.id store

  unfoldable pub fail_expired :
      Fresh
      → RuntimeProfile
      → Attempt
      → Execution
      → Lease
      → Option RoutineExecution
      → ℕ
      → Store
      → Result Store
  unfolding append_failure record_unfinished write_failure
  fail_expired ids profile attempt execution lease routine now store =
      if is_live attempt.status
      then (do
        appended ← append_failure ids profile attempt lease now store
        recorded ← record_unfinished (unfinished routine) appended
        ok (write_failure attempt execution routine recorded))
      else ok store

  -- `_reconcile_expired_lease`; the clock is read once.
  unfoldable pub reconcile_expired_lease :
      Fresh
      → Workspace
      → RuntimeProfile
      → Attempt
      → Execution
      → Lease
      → Option RoutineExecution
      → ℕ
      → Store
      → Result Store
  unfolding is_replayable is_retired_for admit_replay requeue_expired fail_expired close_expired
  reconcile_expired_lease ids workspace profile attempt execution lease routine now store = do
    verdict ←
        admit_replay routine (is_replayable workspace profile attempt execution lease store)
          (is_retired_for workspace profile attempt lease)
          (require_routine_admission settings workspace now)
    if verdict.0 then ok (requeue_expired attempt execution lease routine now store) else (do
      failed ← fail_expired ids profile attempt execution lease routine now store
      ok (close_expired attempt lease routine (is_cleanup_pending profile || verdict.1) now failed))

  -- The filter of the stale leases.
  unfoldable pub is_stale : Workspace → ℕ → Store → Lease → Bool
  is_stale workspace now store l =
      is_unresolved l.state && leb l.expires_at now && (elim (find_profile l.profile_id store) [
        | none ↦ false
        | some p ↦ p.workspace_id == workspace.id
      ])

  abbrev pub find_stale : ℕ → ℕ → ℕ → Store → Option Lease
  find_stale lease_id attempt_id now store =
      elim (find_first (λ l. l.id == lease_id && l.attempt_id == attempt_id) store.leases) [
        | none ↦ none
        | some l ↦ if is_unresolved l.state && leb l.expires_at now then some l else none
      ]

  -- The body of the loop, for a row that was read before without a lock.
  unfoldable pub reconcile_stale : Fresh → Workspace → Lease → ℕ → Store → Result Store
  unfolding reconcile_expired_lease
  reconcile_stale ids workspace stale now store =
      let routine = current_routine workspace.id stale.attempt_id store in
      elim (find_attempt stale.attempt_id workspace.id store) [
        | none ↦ ok store
        | some attempt ↦ elim (find_execution attempt.execution_id store) [
          | none ↦ ok store
          | some execution ↦
              elim (find_first (λ p. p.id == execution.profile_id && p.workspace_id == workspace.id)
                store.profiles) [
                  | none ↦ ok store
                  | some profile ↦ elim (find_stale stale.id attempt.id now store) [
                    | none ↦ ok store
                    | some lease ↦
                        reconcile_expired_lease ids workspace profile attempt execution lease
                          routine now store
                  ]
                ]
        ]
      ]

  -- The loop; `fresh` gives the keys that each attempt may need.
  unfoldable pub reconcile_all : (ℕ → Fresh) → Workspace → List Lease → ℕ → Store → Result Store
  unfolding reconcile_stale
  reconcile_all fresh workspace [] now store = ok store
  reconcile_all fresh workspace (l ∷ ls) now store = do
    first ← reconcile_stale (fresh l.attempt_id) workspace l now store
    reconcile_all fresh workspace ls now first

  -- `order` is the database's `ORDER BY expires_at, id`; MAX_AVAILABLE_SLOTS is 8.
  unfoldable pub reconcile_expired_leases :
      (List Lease → List Lease) → (ℕ → Fresh) → Workspace → ℕ → Store → Result Store
  unfolding is_stale reconcile_all
  reconcile_expired_leases order fresh workspace now store =
      reconcile_all fresh workspace
        (take 8 (order (select (is_stale workspace now store) store.leases))) now store
