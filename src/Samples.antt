-- ===== src/Samples.antt =====
-- Rows that the examples of several components share: an attempt of a conversation that holds a lease.
use allies_foundry.Base.{none, some, true, false, [], ◌∷◌, ok}
use allies_foundry.Models.{
  Store, Workspace, RuntimeProfile, Execution, ExecutionStatus, Attempt, AttemptStatus, Lease,
  LeaseState, RuntimeContext, RuntimeProfileLifecycleState, WorkspaceProvisioningPhase,
}
use allies_foundry.Delivery.Repair.{Wire}
use allies_foundry.Events.Append.{Fresh}

abbrev pub execution : Execution
execution = record {
  id = 3;
  workspace_id = 1;
  profile_id = 2;
  source_kind = "conversation";
  status = ExecutionStatus.running;
  cloud_workspace_id = some 11;
  cloud_ally_id = some 12;
  cloud_conversation_id = some 13;
  cloud_message_id = some 14;
  cloud_binding_id = some 15;
}

abbrev pub attempt : Attempt
attempt = record {
  id = 4;
  execution_id = 3;
  number = 1;
  status = AttemptStatus.leased;
  machine_generation = 6;
  claim_id = some 40;
  claimed_at = none;
  terminal_request_digest = none;
  terminal_lease_digest = none;
  terminal_receipt = none;
  terminal_receipt_id = none;
  stopped_request_digest = none;
  stopped_lease_digest = none;
  stopped_receipt = none;
  session_request_digest = none;
  session_lease_digest = none;
  session_receipt = none;
}

abbrev pub lease : Lease
lease = record {
  id = 5;
  attempt_id = 4;
  profile_id = 2;
  scope_key = 0;
  token_digest = 77;
  claim_id = some 40;
  expires_at = 500;
  machine_generation = 6;
  state = LeaseState.active;
  current_acquisition = none;
}

-- A lease that was released, in the same scope.
abbrev pub released_lease : Lease
released_lease = record lease {
  id = 15;
  attempt_id = 14;
  token_digest = 70;
  state = LeaseState.released;
}

abbrev pub workspace : Workspace
workspace = record {
  id = 1;
  tenant_ref = 11;
  machine_generation = 6;
  provisioning_kind = none;
  provisioning_phase = WorkspaceProvisioningPhase.idle;
  provisioning_source_generation = none;
  provisioning_target_generation = none;
  provisioning_previous_machine_ref = none;
  fly_app_ref = some 21;
  volume_ref = some 22;
  machine_ref = some 23;
  runtime_start_epoch = 2;
  ready_generation = some 6;
  ready_start_epoch = some 2;
  ready_boot_id = some 24;
  ready_at = some 50;
  runtime_last_seen_at = some 60;
  routine_admission = none;
  release_digest = some 25;
}

abbrev pub profile : RuntimeProfile
profile = record {
  id = 2;
  workspace_id = 1;
  lifecycle_state = RuntimeProfileLifecycleState.active;
  hermes_profile_key_version = 1;
  materialized_generation = some 6;
}

abbrev pub store : Store
store = record {
  workspaces = workspace ∷ [];
  profiles = profile ∷ [];
  executions = execution ∷ [];
  attempts = attempt ∷ [];
  leases = released_lease ∷ lease ∷ [];
  approvals = [];
  events = [];
  routines = [];
  acquisitions = [];
  actions = [];
  bindings = [];
  outbox = [];
}

abbrev pub context : RuntimeContext
context = record { workspace_id = 1; machine_generation = 6 }

-- A wire form that shows no event to Cloud.
abbrev pub silent : Store → Wire
silent s = record {
  retained = λ k. true;
  build_event_envelope = λ k. ok none;
  attempt_of = λ k. 4;
  sequence_of = λ k. k;
  public_id = λ k. k;
  is_lower = λ c. false;
  is_alnum = λ c. false;
}

abbrev pub ids : Fresh
ids = record { event = 80; delivery = 81 }

abbrev pub other_ids : Fresh
other_ids = record { event = 82; delivery = 83 }

-- A wire form that shows every event to Cloud, as one byte.
abbrev pub speaking : Store → Wire
speaking s = record (silent s) {
  build_event_envelope = λ k. ok (
      some (record {
        encoded = 123 ∷ [];
        fingerprint =
            "canonical-json-sha256:v1:0123456789abcdef0123456789abcdef0123456789abcdef0123456789abcdef";
      }));
}
