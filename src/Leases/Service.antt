-- ===== src/Leases/Service.antt =====
-- The transactions of backend/runtime/services/leases.py that create, extend, stop and fence leases.
use allies_foundry.Base.{
  ℕ, ◌+◌, String, Bool, true, false, ◌&&◌, ◌||◌, not, Option, none, some, is_some, List, [], ◌∷◌,
  ◌++◌, ltb, ◌==◌, if◌then◌else◌, opt_eq, text_eq, find_first, Result, ok, ◌>>=◌, ◌>>◌, ensure,
  refuse, or_raise, validation, conflict, authorization, fenced, lease_conflict,
  idempotency_conflict, does_not_exist,
}
use allies_foundry.Models.{
  Store, RuntimeProfile, RuntimeProfileLifecycleState, ExecutionStatus, Attempt, AttemptStatus,
  Lease, LeaseState, RoutineExecution, ExecutionEvent, RuntimeContext, seconds, is_unresolved,
  is_active, profile_allows_runtime_write, profile_allows_stop,
}
use allies_foundry.Approvals.Service.{
  find_workspace, find_execution, find_lease, cancel_live_approval_requests,
}
use allies_foundry.Leases.Rows.{
  validate_token_digest, find_profile, update_lease, save_lease_state, update_attempt,
  save_execution_status, Locked, lock_rows,
}

-- The default of `scope_key`, "main".
abbrev pub main_scope : ℕ
main_scope = 0

-- What a primary key, a unique column or the unique constraint of the table does not allow.
unfoldable pub clashes : Lease → Lease → Bool
clashes l m =
    l.id == m.id
    || l.attempt_id == m.attempt_id
    || l.token_digest == m.token_digest
    || is_unresolved l.state
      && is_unresolved m.state
      && l.profile_id == m.profile_id
      && l.scope_key == m.scope_key

unfoldable pub clashes_any : Lease → List Lease → Bool
clashes_any l [] = false
clashes_any l (m ∷ ms) = clashes l m || clashes_any l ms

-- `_create_lease_from_digest`; `id` is the fresh key, and an `IntegrityError` is a clash.
unfoldable pub create_lease_from_digest :
    ℕ → ℕ → ℕ → ℕ → ℕ → Option ℕ → LeaseState → Store → Result (Store × Lease)
create_lease_from_digest id attempt_id token_digest expires_at machine_generation profile_id state
      store =
    do
      validate_token_digest token_digest
      attempt ← or_raise (find_first (λ a. a.id == attempt_id) store.attempts) validation
      execution ← or_raise (find_execution attempt.execution_id store) does_not_exist
      workspace ← or_raise (find_workspace execution.workspace_id store) does_not_exist
      profile ← or_raise (find_profile execution.profile_id store) does_not_exist
      ensure (elim profile_id [ none ↦ true | some k ↦ profile.id == k ]) validation
      ensure
          (attempt.machine_generation == machine_generation
            && workspace.machine_generation == machine_generation)
          authorization
      ensure (profile_allows_runtime_write profile) authorization
      let lease : Lease = record {
        id = id;
        attempt_id = attempt.id;
        profile_id = profile.id;
        scope_key = main_scope;
        token_digest = token_digest;
        claim_id = none;
        expires_at = expires_at;
        machine_generation = machine_generation;
        state = state;
        current_acquisition = none;
      }
      refuse (clashes_any lease store.leases) conflict
      ok (record store { leases = store.leases ++ lease ∷ [] }, lease)

pub record LeaseReceipt : Type 0 where
  pub lease_id : ℕ
  pub expires_at : ℕ

-- `renew_once` of `renew_lease`; LEASE_SECONDS is 60.
unfoldable pub renew_lease : RuntimeContext → ℕ → ℕ → ℕ → Store → Result (Store × LeaseReceipt)
renew_lease context attempt_id token_digest now store = do
  locked ← lock_rows (λ _. true) context attempt_id store
  ensure (profile_allows_runtime_write locked.profile) lease_conflict
  lease ← or_raise (find_lease locked.attempt.id store) lease_conflict
  ensure (lease.token_digest == token_digest) lease_conflict
  ensure (lease.machine_generation == locked.workspace.machine_generation) fenced
  ensure (is_active lease.state) lease_conflict
  ensure (ltb now lease.expires_at) lease_conflict
  ok (
    update_lease lease.id (λ l. record l { expires_at = now + seconds 60 }) store,
    record { lease_id = lease.id; expires_at = now + seconds 60 },
  )

pub record StopReceipt : Type 0 where
  pub attempt_id : ℕ
  pub state : LeaseState
  pub requeued : Bool

-- The receipt that a replay reads off the attempt.
unfoldable pub stored_stop : Attempt → StopReceipt
stored_stop attempt = record {
  attempt_id = attempt.id;
  state = elim attempt.stopped_receipt [ none ↦ LeaseState.released | some r ↦ r.state ];
  requeued = elim attempt.stopped_receipt [ none ↦ false | some r ↦ r.requeued ];
}

unfoldable pub has_dispatched : ℕ → List ExecutionEvent → Bool
has_dispatched attempt_id [] = false
has_dispatched attempt_id (e ∷ es) =
    e.attempt_id == attempt_id && text_eq e.event_type "execution.dispatched"
    || has_dispatched attempt_id es

abbrev pub is_cleanup_pending : RuntimeProfile → Bool
is_cleanup_pending p = elim p.lifecycle_state [
  | RuntimeProfileLifecycleState.cleanup_pending ↦ true
  | _ ↦ false
]

-- Whether the work of a stopped attempt, which belongs to no routine, is queued again.
unfoldable pub requeues : RuntimeProfile → Attempt → Store → Bool
unfolding has_dispatched
requeues profile attempt store =
    not (is_cleanup_pending profile)
    && not (is_some attempt.session_request_digest || has_dispatched attempt.id store.events)

-- The last writes of `stop_once`: the attempt, the execution, its approval requests, the lease.
unfoldable pub write_stop :
    Locked → Lease → AttemptStatus → Bool → ℕ → ℕ → String → ℕ → Store → Store
write_stop locked lease status requeue canonical_digest token_digest reason now store =
    save_lease_state lease LeaseState.released (
      cancel_live_approval_requests locked.attempt.id now (
        save_execution_status locked.execution
          (if requeue then ExecutionStatus.queued else ExecutionStatus.failed)
          (update_attempt locked.attempt.id
            (λ a. record a {
              status = status;
              stopped_request_digest = some canonical_digest;
              stopped_lease_digest = some token_digest;
              stopped_receipt = some (record {
                state = LeaseState.released;
                requeued = requeue;
                reason =
                    if is_cleanup_pending locked.profile then "profile_deprovisioned" else reason;
              });
            })
            store)))

-- The routine whose current attempt this is.
unfoldable pub current_routine : ℕ → ℕ → Store → Option RoutineExecution
current_routine workspace_id attempt_id store =
    find_first
      (λ r. r.workspace_id == workspace_id && opt_eq r.current_attempt_id (some attempt_id))
      store.routines

-- `_record_routine_result_once` of backend/runtime/services/routines.py, as a stop calls it.
module _ (record_routine_result : ℕ → Store → Result Store) where
  -- `stop_once` from the rest of its tests on.
  unfoldable pub stop_lease :
      Locked
      → Option RoutineExecution
      → Lease
      → ℕ
      → ℕ
      → String
      → ℕ
      → Store
      → Result (Store × StopReceipt)
  unfolding write_stop requeues
  stop_lease locked routine lease token_digest canonical_digest reason now store = do
    let requeue = requeues locked.profile locked.attempt store
    let stopping =
        if is_active lease.state then save_lease_state lease LeaseState.stopping store else store
    elim routine [
      | none ↦ ok (
        write_stop locked lease AttemptStatus.unknown requeue canonical_digest token_digest reason
            now stopping,
        record { attempt_id = locked.attempt.id; state = LeaseState.released; requeued = requeue },
      )
      | some r ↦ (do
        recorded ← record_routine_result r.id stopping
        ok (
          write_stop locked lease AttemptStatus.failed false canonical_digest token_digest reason
              now recorded,
          record { attempt_id = locked.attempt.id; state = LeaseState.released; requeued = false },
        ))
    ]

  -- `stop_once` of `acknowledge_stopped`.
  unfoldable pub acknowledge_stopped :
      RuntimeContext → ℕ → ℕ → ℕ → String → ℕ → Store → Result (Store × StopReceipt)
  acknowledge_stopped context attempt_id token_digest canonical_digest reason now store = do
    locked ← lock_rows (λ _. true) context attempt_id store
    let routine = current_routine locked.workspace.id attempt_id store
    if is_some locked.attempt.stopped_request_digest
        then (do
          ensure
              (opt_eq locked.attempt.stopped_request_digest (some canonical_digest)
                && opt_eq locked.attempt.stopped_lease_digest (some token_digest))
              idempotency_conflict
          ok (store, stored_stop locked.attempt))
        else (do
          ensure (profile_allows_stop locked.profile) lease_conflict
          lease ← or_raise (find_lease locked.attempt.id store) lease_conflict
          ensure (lease.token_digest == token_digest) lease_conflict
          ensure (lease.machine_generation == locked.workspace.machine_generation) fenced
          ensure (is_unresolved lease.state) lease_conflict
          stop_lease locked routine lease token_digest canonical_digest reason now store)
