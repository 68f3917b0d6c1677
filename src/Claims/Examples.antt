-- ===== src/Claims/Examples.antt =====
-- Claims on a concrete store, and the theorems of this component applied to them.
use allies_foundry.Base.{
  ℕ, ◌*◌, ◌+◌, ◌≡◌, ◌≢◌, err, integrity_error, refl, none, some, true, [], ◌∷◌, Result, ok,
  find_first, update_where,
}
use allies_foundry.Models.{
  Store, Workspace, WorkspaceProvisioningPhase, RuntimeProfile, RuntimeProfileLifecycleState,
  ExecutionStatus, Attempt, AttemptStatus, Lease, LeaseState, other,
}
use allies_foundry.Approvals.Service.{cancel_live_approval_requests}
use allies_foundry.Delivery.Outbox.{enqueue_event_delivery, enqueue_built}
use allies_foundry.Leases.Rows.{validate_token_digest}
use allies_foundry.Leases.Service.{clashes, clashes_any, has_dispatched}
use allies_foundry.Events.Append.{latest_sequence, enqueue}
use allies_foundry.Events.Expiry.{
  Expiry, append_lease_expired_failure, insert_failure, failure_event,
}
use allies_foundry.Samples.{execution, attempt, lease, released_lease, store, context, silent, ids}
use allies_foundry.Claims.Ready.{
  Settings, is_in_flight, has_machine, is_fresh, is_runtime_ready, profile_is_claim_ready,
  require_current_runtime_ready_locked,
}
use allies_foundry.Claims.Expired.{
  reconcile_expired_lease, reconcile_expired_leases, reconcile_all, is_stale, is_replayable,
  is_retired_for, has_replay_checkpoint, admit_replay, fail_expired, append_failure,
  record_unfinished, write_failure, close_expired,
}
use allies_foundry.Claims.Candidate.{
  Claim, NewKeys, scope_of, claim_id_of, claim_from_records, is_claimable, latest_number,
  new_attempt, attempt_clashes, create_attempt, claim_attempt, start_work,
}
use allies_foundry.Claims.Granting.{
  create_lease, grant_lease, acquire, grant, take_candidate, consider,
}
use allies_foundry.Claims.Service.{
  Database, after_candidate, claim_first, is_candidate, claim_new, claim_reconciled,
  claim_next_execution_once, claim_next_execution,
}
use allies_foundry.Claims.Exclusive.{take_candidate-accepted}
use allies_foundry.Claims.Handing.{Handed}
use allies_foundry.Claims.Handed.{claim-Handed}
use allies_foundry.Claims.Checkpoint.{Stands, checkpointed_fails}

abbrev workspace : Workspace
workspace = record {
  id = 1;
  tenant_ref = 11;
  machine_generation = 6;
  provisioning_kind = none;
  provisioning_phase = WorkspaceProvisioningPhase.idle;
  provisioning_source_generation = none;
  provisioning_target_generation = none;
  provisioning_previous_machine_ref = none;
  fly_app_ref = some 21;
  volume_ref = some 22;
  machine_ref = some 23;
  runtime_start_epoch = 2;
  ready_generation = some 6;
  ready_start_epoch = some 2;
  ready_boot_id = some 24;
  ready_at = some 50;
  runtime_last_seen_at = some 60;
  routine_admission = none;
  release_digest = some 25;
}

abbrev profile : RuntimeProfile
profile = record {
  id = 2;
  workspace_id = 1;
  lifecycle_state = RuntimeProfileLifecycleState.active;
  hermes_profile_key_version = 1;
  materialized_generation = some 6;
}

abbrev settings : Settings
settings = record {
  freshness = 1000;
  release = none;
  claim_token = λ c a g. c * 1000 + a;
  digest = λ t. t + 7;
}

abbrev failures : Expiry
failures = record {
  event_id = λ k. k + 1000;
  stream_id = λ k. "stream";
  payload = record { digest = 71; size = 40; shape = other };
}

abbrev no_failure : ℕ → Store → Result Store
no_failure k s = ok s

abbrev keys : NewKeys
keys = record { attempt = 50; lease = 51; acquisition = 52 }

abbrev database : Database
database = record { by_expiry = λ ls. ls; by_creation = λ es. es; keys = keys; fresh = λ k. ids }

-- The execution waits, and its first lease was released.
abbrev waiting : Store
waiting = record store {
  workspaces = workspace ∷ [];
  executions = record execution { status = ExecutionStatus.queued } ∷ [];
  leases = released_lease ∷ [];
}

abbrev granted : Lease
granted = record {
  id = 51;
  attempt_id = 50;
  profile_id = 2;
  scope_key = 0;
  token_digest = 41057;
  claim_id = some 41;
  expires_at = 60000100;
  machine_generation = 6;
  state = LeaseState.active;
  current_acquisition = none;
}

abbrev started : Attempt
started = record {
  id = 50;
  execution_id = 3;
  number = 2;
  status = AttemptStatus.running;
  machine_generation = 6;
  claim_id = some 41;
  claimed_at = some 100;
  terminal_request_digest = none;
  terminal_lease_digest = none;
  terminal_receipt = none;
  terminal_receipt_id = none;
  stopped_request_digest = none;
  stopped_lease_digest = none;
  stopped_receipt = none;
  session_request_digest = none;
  session_lease_digest = none;
  session_receipt = none;
}

abbrev working : Store
working = record waiting {
  executions = execution ∷ [];
  attempts = attempt ∷ started ∷ [];
  leases = released_lease ∷ granted ∷ [];
}

abbrev claim : Claim
claim = record {
  attempt_id = 50;
  execution_id = 3;
  profile_id = 2;
  lease_id = 51;
  lease_token = 41050;
  expires_at = 60000100;
  claim_id = 41;
  routine_id = none;
}

claims :
    claim_next_execution silent failures settings database no_failure context 41 1 100 waiting
    ≡ ok (working, some claim)
unfolding claim_next_execution claim_next_execution_once claim_reconciled claim_new claim_first
    after_candidate is_candidate consider take_candidate grant acquire grant_lease create_lease
    claim_attempt create_attempt attempt_clashes new_attempt latest_number start_work is_claimable
    claim_from_records claim_id_of scope_of reconcile_expired_leases reconcile_all is_stale
    require_current_runtime_ready_locked is_runtime_ready is_fresh has_machine is_in_flight
    profile_is_claim_ready validate_token_digest clashes clashes_any find_first update_where
claims = refl

claim-Handed_example : Handed 6 100 working claim
claim-Handed_example =
    claim-Handed silent failures settings database no_failure context 41 1 100 waiting working claim
      claims

-- The attempt has bound a session, and its lease has run out.
abbrev begun : Attempt
begun = record attempt { session_request_digest = some 99 }

abbrev stale : Store
stale = record store { workspaces = workspace ∷ []; attempts = begun ∷ [] }

abbrev failed : Store
failed = record stale {
  executions = record execution { status = ExecutionStatus.failed } ∷ [];
  attempts = record begun { status = AttemptStatus.unknown } ∷ [];
  leases = released_lease ∷ record lease { state = LeaseState.released } ∷ [];
  events =
      record {
        id = 80;
        attempt_id = 4;
        event_id = 1004;
        stream_id = "stream";
        sequence = 1;
        event_type = "execution.failed";
        payload = record { digest = 71; size = 40; shape = other };
        payload_digest = some 71;
        created_at = 1000;
      }
      ∷ [];
}

reconciles :
    reconcile_expired_lease silent failures settings no_failure ids workspace profile begun
      execution lease none 1000 stale
    ≡ ok failed
unfolding reconcile_expired_lease is_replayable is_retired_for has_replay_checkpoint admit_replay
    profile_is_claim_ready fail_expired append_failure record_unfinished write_failure close_expired
    append_lease_expired_failure insert_failure failure_event latest_sequence enqueue
    enqueue_event_delivery enqueue_built cancel_live_approval_requests has_dispatched find_first
    update_where
reconciles = refl

checkpointed : has_replay_checkpoint begun execution stale ≡ true
unfolding has_replay_checkpoint has_dispatched
checkpointed = refl

checkpointed_fails_example : Stands 3 ExecutionStatus.failed failed
checkpointed_fails_example =
    checkpointed_fails silent failures settings no_failure ids workspace profile begun execution
      lease none 1000 stale failed refl refl checkpointed reconciles

take_candidate-accepted_example :
    take_candidate settings keys 41 workspace profile execution none 100 waiting
    ≢ err integrity_error
unfolding find_first
take_candidate-accepted_example =
    take_candidate-accepted settings keys 41 workspace profile execution 100 waiting refl
