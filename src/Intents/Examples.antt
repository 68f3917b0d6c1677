-- ===== src/Intents/Examples.antt =====
-- Wakes of a concrete workspace, and the theorems of this component applied to them.
use allies_foundry.Base.{
  ◌≡◌, refl, none, some, true, false, [], ◌∷◌, ◌||◌, ok, find_first, update_where,
}
use allies_foundry.Models.{Workspace, WorkspaceProvisioningPhase}
use allies_foundry.Claims.Ready.{is_runtime_ready}
use allies_foundry.Intents.Requests.{
  Power, Waked, Tables, WakeSettings, RuntimeOperationState, RuntimeOperationTrigger,
  RuntimeIntentType, RuntimeIntentOutcome, RuntimeIntentReceipt, request_runtime_intent,
  find_workspace, request_execution_wake_locked,
}
use allies_foundry.Intents.Waking.{has_identity, is_waking, is_unprovisioned, execution_wakes}
use allies_foundry.Intents.Replay.{replayed_intent}
use allies_foundry.Intents.Identity.{AllIdentified, request-AllIdentified}

-- A Machine that was stopped: its receipt of readiness is gone.
abbrev workspace : Workspace
workspace = record {
  id = 1;
  tenant_ref = 11;
  machine_generation = 6;
  provisioning_kind = none;
  provisioning_phase = WorkspaceProvisioningPhase.idle;
  provisioning_source_generation = none;
  provisioning_target_generation = none;
  provisioning_previous_machine_ref = none;
  fly_app_ref = some 21;
  volume_ref = some 22;
  machine_ref = some 23;
  runtime_start_epoch = 2;
  ready_generation = none;
  ready_start_epoch = none;
  ready_boot_id = none;
  ready_at = none;
  runtime_last_seen_at = none;
  routine_admission = none;
  release_digest = some 25;
}

abbrev power : Power
power = record {
  runtime_operation_id = some 30;
  runtime_operation_state = RuntimeOperationState.stopping;
  runtime_operation_trigger = some RuntimeOperationTrigger.speculative;
  runtime_operation_requested_at = some 40;
  runtime_operation_retry_count = 2;
  activation_claim_token = some 31;
  activation_claim_expires_at = some 90;
  speculative_keep_warm_until = none;
  last_speculative_start_at = none;
}

abbrev settings : WakeSettings
settings = record {
  freshness = 1000;
  intent_ttl = 120;
  intent_retention = 600;
  start_cooldown = 300;
  keep_warm = 600;
}

abbrev tables : Tables
tables = record { workspaces = record { workspace = workspace; power = power } ∷ []; intents = [] }

-- The operation that stops the Machine is replaced, and the claim on it is dropped.
abbrev woken : Power
woken = record {
  runtime_operation_id = some 32;
  runtime_operation_state = RuntimeOperationState.requested;
  runtime_operation_trigger = some RuntimeOperationTrigger.speculative;
  runtime_operation_requested_at = some 100;
  runtime_operation_retry_count = 0;
  activation_claim_token = none;
  activation_claim_expires_at = none;
  speculative_keep_warm_until = some 700;
  last_speculative_start_at = none;
}

abbrev answered : Tables
answered = record {
  workspaces = record { workspace = workspace; power = woken } ∷ [];
  intents =
      record {
        workspace_id = 1;
        idempotency_key = 5;
        intent_type = RuntimeIntentType.composing_started;
        received_at = 95;
        expires_at = 215;
        delete_after = 695;
        outcome = RuntimeIntentOutcome.waking;
        coalesced_operation_id = some 32;
      }
      ∷ [];
}

abbrev receipt : RuntimeIntentReceipt
receipt = record { status = RuntimeIntentOutcome.waking; operation_id = some 32; replayed = false }

answers :
    request_runtime_intent settings 32 100 1 5 RuntimeIntentType.composing_started 95 tables
    ≡ ok (answered, receipt)
unfolding request_runtime_intent is_runtime_ready find_first update_where
answers = refl

-- The wake has been taken up since.
abbrev starting : Waked
starting = record {
  workspace = workspace;
  power = record woken { runtime_operation_state = RuntimeOperationState.starting };
}

abbrev answered_later : Tables
answered_later = record answered { workspaces = starting ∷ [] }

starting_found : find_workspace 1 answered_later ≡ some starting
unfolding find_first
starting_found = refl

replayed_intent_example :
    request_runtime_intent settings 33 150 1 5 RuntimeIntentType.composing_started 140
      answered_later
    ≡ ok (answered_later, record receipt { replayed = true })
replayed_intent_example =
    replayed_intent 1 5 RuntimeIntentType.composing_started settings settings 32 100 95 33 150 140
      tables answered answered_later starting receipt answers starting_found refl

execution_wakes_example :
    (q : Power) × (request_execution_wake_locked settings 32 100 workspace power ≡ ok q)
    × (has_identity q ≡ true)
    × ((is_runtime_ready 1000 workspace 100 || (is_unprovisioned workspace power || is_waking q))
        ≡ true)
unfolding has_identity
execution_wakes_example = execution_wakes settings 32 100 workspace power refl

request-AllIdentified_example : AllIdentified answered
unfolding has_identity
request-AllIdentified_example =
    request-AllIdentified settings 32 100 1 5 RuntimeIntentType.composing_started 95 tables answered
      receipt (refl, tt) answers
