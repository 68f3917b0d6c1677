-- ===== src/Approvals/Examples.antt =====
-- A decision on a concrete store, and the theorems of this component applied to it.
use allies_foundry.Base.{◌≡◌, refl, none, some, [], ◌∷◌, All, ok, find_first, update_where, arith}
use allies_foundry.Models.{
  Store, ApprovalRequest, ApprovalRequestStatus, ExecutionStatus, AttemptStatus, LeaseState,
  RuntimeProfileLifecycleState, WorkspaceProvisioningPhase, approve, Outcome,
}
use allies_foundry.Approvals.Requests.{
  ApprovalDecisionCommand, reconcile_locked, ensure_command_binding, ensure_decision_window,
  set_decision,
}
use allies_foundry.Approvals.Service.{
  save_approval, ApprovalDecisionReceipt, accepted, duplicate, decision_receipt, decide_reconciled,
  record_approval_decision, lease_admits,
}
use allies_foundry.Approvals.Lifecycle.{IsConsistent}
use allies_foundry.Approvals.History.{
  here, next, decided, History-IsConsistent, IsOnly, History-final,
}
use allies_foundry.Approvals.Decisions.{Admission, accepted_decision}
use allies_foundry.Approvals.Replay.{replayed_decision}

abbrev request : ApprovalRequest
request = record {
  id = 50;
  workspace_id = 1;
  profile_id = 2;
  execution_id = 3;
  attempt_id = 4;
  generation = 6;
  action_kind = "terminal";
  action_label = 108 ∷ 115 ∷ [];
  action_preview = 108 ∷ 115 ∷ [];
  expires_at = 300;
  status = ApprovalRequestStatus.pending;
  decision = none;
  decision_command_id = none;
  decision_idempotency_key = none;
  decision_fingerprint = "";
  decided_at = none;
  acknowledgement_deadline_at = none;
  outcome = none;
  resolved_at = none;
}

-- A request of another attempt that has been cancelled.
abbrev closed : ApprovalRequest
closed = record request {
  id = 51;
  attempt_id = 9;
  status = ApprovalRequestStatus.cancelled;
  outcome = some Outcome.cancelled;
  resolved_at = some 20;
}

abbrev store : Store
store = record {
  workspaces =
      record {
        id = 1;
        tenant_ref = 11;
        machine_generation = 6;
        provisioning_kind = none;
        provisioning_phase = WorkspaceProvisioningPhase.idle;
        provisioning_source_generation = none;
        provisioning_target_generation = none;
        provisioning_previous_machine_ref = none;
        fly_app_ref = some 21;
        volume_ref = some 22;
        machine_ref = some 23;
        runtime_start_epoch = 2;
        ready_generation = some 6;
        ready_start_epoch = some 2;
        ready_boot_id = some 24;
        ready_at = some 50;
        runtime_last_seen_at = some 60;
        routine_admission = none;
        release_digest = some 25;
      }
      ∷ [];
  profiles =
      record {
        id = 2;
        workspace_id = 1;
        lifecycle_state = RuntimeProfileLifecycleState.active;
        hermes_profile_key_version = 1;
        materialized_generation = some 6;
      }
      ∷ [];
  executions =
      record {
        id = 3;
        workspace_id = 1;
        profile_id = 2;
        source_kind = "";
        status = ExecutionStatus.running;
        cloud_workspace_id = some 11;
        cloud_ally_id = some 12;
        cloud_conversation_id = some 13;
        cloud_message_id = some 14;
        cloud_binding_id = some 15;
      }
      ∷ [];
  attempts =
      record {
        id = 4;
        execution_id = 3;
        number = 1;
        status = AttemptStatus.running;
        machine_generation = 6;
        claim_id = some 40;
        claimed_at = some 10;
        terminal_request_digest = none;
        terminal_lease_digest = none;
        terminal_receipt = none;
        terminal_receipt_id = none;
        stopped_request_digest = none;
        stopped_lease_digest = none;
        stopped_receipt = none;
        session_request_digest = none;
        session_lease_digest = none;
        session_receipt = none;
      }
      ∷ [];
  leases =
      record {
        id = 5;
        attempt_id = 4;
        profile_id = 2;
        scope_key = 0;
        token_digest = 77;
        claim_id = some 40;
        expires_at = 500;
        machine_generation = 6;
        state = LeaseState.active;
        current_acquisition = none;
      }
      ∷ [];
  approvals = request ∷ closed ∷ [];
  events = [];
  routines = [];
  acquisitions = [];
  actions = [];
  bindings = [];
  outbox = [];
}

abbrev command : ApprovalDecisionCommand
command = record {
  cloud_workspace_id = 11;
  execution_id = 3;
  attempt_id = 4;
  generation = 6;
  ally_id = 12;
  conversation_id = 13;
  message_id = 14;
  cloud_binding_id = 15;
  approval_request_id = 50;
  decision = approve;
  command_id = 60;
  idempotency_key = 61;
  fingerprint = "f";
  issued_at = 80;
  decided_at = 90;
  deadline_at = 150;
  acknowledgement_deadline_at = 160;
}

abbrev decided_store : Store
unfolding set_decision
decided_store = record store { approvals = set_decision request command ∷ closed ∷ [] }

abbrev receipt : ApprovalDecisionReceipt
receipt = record {
  status = accepted;
  command_id = 60;
  idempotency_key = 61;
  approval_request_id = 50;
  fingerprint = "f";
}

decide : record_approval_decision command 100 store ≡ ok (decided_store, receipt)
unfolding record_approval_decision decide_reconciled decision_receipt reconcile_locked
    ensure_command_binding ensure_decision_window set_decision lease_admits find_first update_where
decide = refl

accepted_decision_example : Admission command 100 store decided_store
accepted_decision_example = accepted_decision command 100 store decided_store receipt decide refl

replayed_decision_example :
    (b : ApprovalRequest) × (decided_store ≡ save_approval b store)
    × (record_approval_decision command 170 decided_store
        ≡ ok (
          save_approval (reconcile_locked b 170) decided_store,
          decision_receipt command duplicate,
        ))
replayed_decision_example = replayed_decision command 100 170 store decided_store receipt decide

store-IsConsistent : All IsConsistent store.approvals
store-IsConsistent = ground arith

History-IsConsistent_example : All IsConsistent decided_store.approvals
History-IsConsistent_example =
    History-IsConsistent store decided_store (next here (decided command 100 receipt decide))
      store-IsConsistent

History-final_example : All (IsOnly closed) decided_store.approvals
History-final_example =
    History-final store decided_store closed (next here (decided command 100 receipt decide)) refl
      ((store-IsConsistent.0, λ e. absurd (omega arith)), ((store-IsConsistent.1.0, λ e. refl), tt))
