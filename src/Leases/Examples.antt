-- ===== src/Leases/Examples.antt =====
-- A lease on a concrete store, and the theorems of this component applied to it.
use allies_foundry.Base.{
  ℕ, ◌<◌, ◌≡◌, refl, none, some, true, false, [], ◌∷◌, arith, find_first, update_where, Result, ok,
  err, conflict, idempotency_conflict, Ensures, member, All, ltb, if◌then◌else◌, ◌+◌,
}
use allies_foundry.Samples.{
  execution, attempt, lease, released_lease, store, context, silent, ids, other_ids,
}
use allies_foundry.Models.{
  Store, ExecutionStatus, AttemptStatus, LeaseState, WorkspaceProvisioningPhase, replace, other,
  seconds,
}
use allies_foundry.Approvals.Service.{cancel_live_approval_requests, find_lease}
use allies_foundry.Leases.Finished.{is_turn}
use allies_foundry.Leases.Rows.{lock_rows, validate_token_digest}
use allies_foundry.Leases.Mutation.{
  AttemptUpdates, authorize_attempt_mutation, write_updates, validate_attempt_mutation, authorize,
  validate_authorized_attempt_mutation, validate_claimed_at, is_unchanged, same_status,
  status_allows, next_status, next_claimed_at, lease_is_current, is_claimable,
}
use allies_foundry.Leases.Service.{
  renew_lease, LeaseReceipt, acknowledge_stopped, stop_lease, write_stop, StopReceipt,
  current_routine, requeues, has_dispatched, clashes, clashes_any,
}
use allies_foundry.Leases.Finish.{
  Finish, TerminalReceipt, TerminalEvent, terminal_append, terminal_type, finish_attempt,
  write_finish, append_terminal, terminal_status, execution_status,
}
use allies_foundry.Leases.FinishReplay.{replayed_finish, conflicting_finish}
use allies_foundry.Leases.Replay.{replayed_stop}
use allies_foundry.Leases.Moves.{Moved, Moved-refl, IsExclusive, Evolved}
use allies_foundry.Leases.History.{renewed, stopped, History, here, next, History-Evolved}
use allies_foundry.Leases.Mutating.{RestsOn, authorize_attempt_mutation-RestsOn}
use allies_foundry.Leases.Renewal.{renewed_again}
use allies_foundry.Leases.Fence.{
  confirm_machine_stopped_and_fence, check_fence, fence_profiles, fence_profile, fence_leases,
  fence_lease, retire, is_retired, checkpointed_attempts, is_running,
}
use allies_foundry.Leases.Cleared.{fence-AllClear}
use allies_foundry.Delivery.Outbox.{enqueue_event_delivery, enqueue_built}
use allies_foundry.Events.Append.{
  append_event_once, check_append, maximum_sequence, is_terminal_type, validate_nonempty,
  insert_event, latest_sequence, approval_effect, enqueue, new_event,
}
use allies_foundry.Leases.Retry.{
  Call, answered, locked, run_with_sqlite_lock_retry, retry-answers, retry-gives_up,
}

abbrev no_routine : ℕ → Store → Result Store
no_routine k s = ok s

no_routine-Moved : (k : ℕ) (s : Store) → Ensures (λ t. Moved s.leases t.leases) (no_routine k s)
no_routine-Moved k s = Moved-refl s.leases

abbrev failure_event : TerminalEvent
failure_event = record {
  event_id = 70;
  stream_id = "stream";
  sequence = 3;
  payload = record { digest = 71; size = 40; shape = other };
}

abbrev crashed : Finish
crashed = record {
  succeeded = false;
  retryable = false;
  request_digest = 90;
  lease_digest = 77;
  canonical = record { json = 1; retryable = false };
  terminal_event = some failure_event;
}

abbrev completed_later : Finish
completed_later = record crashed { succeeded = true; request_digest = 91; terminal_event = none }

abbrev finished : Store
finished = record store {
  executions = record execution { status = ExecutionStatus.failed } ∷ [];
  attempts =
      record attempt {
        status = AttemptStatus.failed;
        terminal_request_digest = some 90;
        terminal_lease_digest = some 77;
        terminal_receipt = some (record { json = 1; retryable = false });
        terminal_receipt_id = some 33;
      }
      ∷ [];
  leases = released_lease ∷ record lease { state = LeaseState.released } ∷ [];
  events =
      record {
        id = 80;
        attempt_id = 4;
        event_id = 70;
        stream_id = "stream";
        sequence = 3;
        event_type = "execution.failed";
        payload = record { digest = 71; size = 40; shape = other };
        payload_digest = some 71;
        created_at = 100;
      }
      ∷ [];
}

abbrev receipt : TerminalReceipt
receipt = record {
  attempt_id = 4;
  status = AttemptStatus.failed;
  receipt_id = 33;
  requeued = false;
  receipt = record { json = 1; retryable = false };
}

finishes : finish_attempt silent ids context 4 crashed 33 100 store ≡ ok (finished, receipt)
unfolding finish_attempt write_finish lock_rows append_terminal terminal_append terminal_type
    terminal_status execution_status cancel_live_approval_requests update_where find_first
    append_event_once check_append maximum_sequence is_terminal_type validate_nonempty insert_event
    latest_sequence approval_effect enqueue new_event enqueue_event_delivery enqueue_built authorize
    lease_is_current validate_token_digest
finishes = refl

-- The leases are gone since.
abbrev finished_later : Store
finished_later = record finished { leases = [] }

finished_rows : lock_rows is_turn context 4 finished_later ≡ lock_rows is_turn context 4 finished
unfolding lock_rows
finished_rows = refl

replayed_finish_example :
    finish_attempt silent other_ids context 4 crashed 34 1000 finished_later
    ≡ ok (finished_later, receipt)
replayed_finish_example =
    replayed_finish silent context 4 ids other_ids crashed crashed 33 34 100 1000 store finished
      finished_later receipt refl finishes finished_rows refl refl

conflicting_finish_example :
    finish_attempt silent other_ids context 4 completed_later 35 1000 finished_later
    ≡ err idempotency_conflict
conflicting_finish_example =
    conflicting_finish silent context 4 ids other_ids crashed completed_later 33 35 100 1000 store
      finished finished_later receipt refl finishes finished_rows refl

-- Renewed at 100, and then stopped.
abbrev extended : Store
extended = record store { leases = released_lease ∷ record lease { expires_at = 60000100 } ∷ [] }

abbrev renewal : LeaseReceipt
renewal = record { lease_id = 5; expires_at = 60000100 }

renews : renew_lease context 4 77 100 store ≡ ok (extended, renewal)
unfolding renew_lease lock_rows update_where find_first
renews = refl

abbrev halted : Store
halted = record store {
  executions = record execution { status = ExecutionStatus.queued } ∷ [];
  attempts =
      record attempt {
        status = AttemptStatus.unknown;
        stopped_request_digest = some 95;
        stopped_lease_digest = some 77;
        stopped_receipt =
            some (record { state = LeaseState.released; requeued = true; reason = "user" });
      }
      ∷ [];
  leases =
      released_lease ∷ record lease { expires_at = 60000100; state = LeaseState.released } ∷ [];
}

abbrev stop_receipt : StopReceipt
stop_receipt = record { attempt_id = 4; state = LeaseState.released; requeued = true }

stops :
    acknowledge_stopped no_routine context 4 77 95 "user" 1000 extended ≡ ok (halted, stop_receipt)
unfolding acknowledge_stopped stop_lease write_stop lock_rows current_routine requeues
    has_dispatched cancel_live_approval_requests update_where find_first
stops = refl

no_current_routine : (w : ℕ) → current_routine w 4 extended ≡ none
unfolding current_routine find_first
no_current_routine w = refl

-- The leases are gone since.
abbrev halted_later : Store
halted_later = record halted { leases = [] }

halted_rows : lock_rows (λ _. true) context 4 halted_later ≡ lock_rows (λ _. true) context 4 halted
unfolding lock_rows
halted_rows = refl

replayed_stop_example :
    acknowledge_stopped no_routine context 4 77 95 "again" 2000 halted_later
    ≡ ok (halted_later, stop_receipt)
replayed_stop_example =
    replayed_stop no_routine context 4 77 95 "user" "again" 1000 2000 extended halted halted_later
      stop_receipt no_current_routine stops halted_rows

abbrev renewed_and_stopped : History silent no_routine store halted
renewed_and_stopped =
    next (next here (renewed context 4 77 100 renewal renews))
      (stopped context 4 77 95 "user" 1000 stop_receipt stops)

store-IsExclusive : IsExclusive store.leases
unfolding clashes_any clashes
store-IsExclusive = (refl, (refl, tt))

History-Evolved_example : Evolved store.leases halted.leases
History-Evolved_example =
    History-Evolved silent no_routine no_routine-Moved store halted renewed_and_stopped
      store-IsExclusive

-- The other lease is gone since.
abbrev extended_later : Store
extended_later = record extended { leases = record lease { expires_at = 60000100 } ∷ [] }

extended_rows :
    lock_rows (λ _. true) context 4 extended_later ≡ lock_rows (λ _. true) context 4 extended
unfolding lock_rows
extended_rows = refl

extended_lease : find_lease 4 extended_later ≡ find_lease 4 extended
unfolding find_first
extended_lease = refl

renewed_again_example :
    (renewal.expires_at ≡ 100 + seconds 60)
    × (v : Store) × (renew_lease context 4 77 50000000 extended_later
        ≡ ok (v, record { lease_id = 5; expires_at = 110000000 }))
renewed_again_example =
    renewed_again context 4 77 100 50000000 store extended extended_later renewal renews
      extended_rows extended_lease (omega arith)

-- The attempt begins to run.
abbrev begins : AttemptUpdates
begins = record { status = some AttemptStatus.running; claimed_at = some (some 10) }

abbrev running : Store
running = record store {
  attempts = record attempt { status = AttemptStatus.running; claimed_at = some 10 } ∷ [];
}

mutates : authorize_attempt_mutation 4 5 77 6 begins 100 store ≡ ok running
unfolding authorize_attempt_mutation write_updates validate_attempt_mutation authorize
    validate_authorized_attempt_mutation validate_claimed_at is_unchanged same_status status_allows
    next_status next_claimed_at lease_is_current is_claimable validate_token_digest update_where
    find_first
mutates = refl

authorize_attempt_mutation-RestsOn_example : RestsOn 4 5 77 6 begins 100 store running
authorize_attempt_mutation-RestsOn_example =
    authorize_attempt_mutation-RestsOn 4 5 77 6 begins 100 store running mutates

-- Two calls meet a lock, and the third answers.
abbrev third_time : ℕ → Call (Result ℕ)
third_time k = if ltb k 2 then locked else answered (ok 5)

busy_twice : (i : ℕ) → i < 2 → third_time i ≡ locked
busy_twice i lt = ground arith

retry-answers_example : run_with_sqlite_lock_retry third_time ≡ ok 5
retry-answers_example = retry-answers third_time 2 (ok 5) (omega arith) busy_twice refl

abbrev always_locked : ℕ → Call (Result ℕ)
always_locked k = locked

retry-gives_up_example : run_with_sqlite_lock_retry always_locked ≡ err conflict
retry-gives_up_example = retry-gives_up always_locked (λ i le. refl)

-- The Machine of generation 6 was replaced and has stopped.
abbrev replaced : Store
replaced = record store {
  workspaces =
      record {
        id = 1;
        tenant_ref = 11;
        machine_generation = 7;
        provisioning_kind = some replace;
        provisioning_phase = WorkspaceProvisioningPhase.old_machine_stopped;
        provisioning_source_generation = some 6;
        provisioning_target_generation = some 7;
        provisioning_previous_machine_ref = some 8;
        fly_app_ref = some 21;
        volume_ref = some 22;
        machine_ref = some 23;
        runtime_start_epoch = 2;
        ready_generation = some 6;
        ready_start_epoch = some 2;
        ready_boot_id = some 24;
        ready_at = some 50;
        runtime_last_seen_at = some 60;
        routine_admission = none;
        release_digest = some 25;
      }
      ∷ [];
}

abbrev retired : Store
retired = record replaced {
  executions = record execution { status = ExecutionStatus.queued } ∷ [];
  attempts = record attempt { status = AttemptStatus.unknown } ∷ [];
  leases = released_lease ∷ record lease { state = LeaseState.fenced } ∷ [];
}

fences :
    confirm_machine_stopped_and_fence 1 6 7 (some 8) 900 replaced
    ≡ ok (retired, record { fenced = 1; requeued = 1 })
unfolding confirm_machine_stopped_and_fence check_fence fence_profiles fence_profile fence_leases
    fence_lease retire is_retired checkpointed_attempts is_running cancel_live_approval_requests
    update_where find_first member
fences = refl

fence-AllClear_example : All (λ l. is_retired 2 6 l ≡ false) retired.leases
fence-AllClear_example =
    fence-AllClear 1 6 7 (some 8) 900 replaced retired (record { fenced = 1; requeued = 1 })
      store-IsExclusive fences 2 (unfold member in refl)
