-- ===== src/Approvals/Requests.antt =====
-- The operations on one locked approval request (backend/runtime/services/approvals.py).
use allies_foundry.Base.{
  ℕ, min, String, Bool, true, false, ◌&&◌, not, Option, none, some, ltb, leb, ◌==◌, opt_eq, opt_le,
  if◌then◌else◌, text_eq, Result, ok, err, ◌>>=◌, ◌>>◌, ensure, refuse, validation, conflict,
}
use allies_foundry.Models.{
  ApprovalRequest, ApprovalRequestStatus, Decision, Outcome, Execution, approve, reject, approved,
  rejected,
}

abbrev pub is_pending : ApprovalRequestStatus → Bool
is_pending ApprovalRequestStatus.pending = true
is_pending _ = false

abbrev pub is_recorded : ApprovalRequestStatus → Bool
is_recorded ApprovalRequestStatus.decision_recorded = true
is_recorded _ = false

-- `_reconcile_locked`.
unfoldable pub reconcile_locked : ApprovalRequest → ℕ → ApprovalRequest
reconcile_locked a now =
    if is_pending a.status && leb a.expires_at now
    then record a {
      status = ApprovalRequestStatus.expired;
      outcome = some Outcome.expired;
      resolved_at = some now;
    }
    else if is_recorded a.status && opt_le a.acknowledgement_deadline_at now
    then record a { status = ApprovalRequestStatus.outcome_unknown; resolved_at = some now }
    else a

-- The parts of an approval command (backend/runtime/contracts.py).
pub record ApprovalDecisionCommand : Type 0 where
  pub cloud_workspace_id : ℕ
  pub execution_id : ℕ
  pub attempt_id : ℕ
  pub generation : ℕ
  pub ally_id : ℕ
  pub conversation_id : ℕ
  pub message_id : ℕ
  pub cloud_binding_id : ℕ
  pub approval_request_id : ℕ
  pub decision : Decision
  pub command_id : ℕ
  pub idempotency_key : ℕ
  pub fingerprint : String
  pub issued_at : ℕ
  pub decided_at : ℕ
  pub deadline_at : ℕ
  pub acknowledgement_deadline_at : ℕ

abbrev decision_eq : Option Decision → Decision → Bool
decision_eq none d = false
decision_eq (some approve) approve = true
decision_eq (some reject) reject = true
decision_eq (some _) _ = false

-- `_same_recorded_decision`.
unfoldable pub same_recorded_decision : ApprovalRequest → ApprovalDecisionCommand → Bool
same_recorded_decision a command =
    opt_eq a.decision_command_id (some command.command_id)
    && opt_eq a.decision_idempotency_key (some command.idempotency_key)
    && text_eq a.decision_fingerprint command.fingerprint
    && decision_eq a.decision command.decision

-- `_ensure_command_binding`, with the execution that the request belongs to.
unfoldable pub ensure_command_binding :
    ApprovalRequest → Execution → ApprovalDecisionCommand → Result (Unit {0})
ensure_command_binding a execution command =
    ensure
      (a.execution_id == command.execution_id
        && a.attempt_id == command.attempt_id
        && a.generation == command.generation
        && opt_eq execution.cloud_workspace_id (some command.cloud_workspace_id)
        && opt_eq execution.cloud_ally_id (some command.ally_id)
        && opt_eq execution.cloud_conversation_id (some command.conversation_id)
        && opt_eq execution.cloud_message_id (some command.message_id)
        && opt_eq execution.cloud_binding_id (some command.cloud_binding_id))
      conflict

-- `_ensure_decision_window`.
unfoldable pub ensure_decision_window :
    ApprovalRequest → ApprovalDecisionCommand → ℕ → Result (Unit {0})
ensure_decision_window a command now = do
  refuse (ltb command.decided_at command.issued_at) validation
  refuse (ltb command.acknowledgement_deadline_at command.deadline_at) validation
  refuse (ltb a.expires_at command.deadline_at) conflict
  refuse (ltb now command.decided_at) conflict
  refuse (leb (min command.deadline_at (min command.acknowledgement_deadline_at a.expires_at)) now)
      conflict

-- The assignments of `record_approval_decision` before its `save`.
unfoldable pub set_decision : ApprovalRequest → ApprovalDecisionCommand → ApprovalRequest
set_decision a command = record a {
  decision = some command.decision;
  decision_command_id = some command.command_id;
  decision_idempotency_key = some command.idempotency_key;
  decision_fingerprint = command.fingerprint;
  decided_at = some command.decided_at;
  acknowledgement_deadline_at = some command.acknowledgement_deadline_at;
  status = ApprovalRequestStatus.decision_recorded;
}

-- `outcome not in APPROVAL_OUTCOMES` raises.
unfoldable pub parse_outcome : String → Result Outcome
parse_outcome s =
    if text_eq s "approved"
    then ok approved
    else if text_eq s "rejected"
    then ok rejected
    else if text_eq s "expired"
    then ok Outcome.expired
    else if text_eq s "cancelled"
    then ok Outcome.cancelled
    else err validation

abbrev outcome_eq : Option Outcome → Outcome → Bool
outcome_eq (some approved) approved = true
outcome_eq (some rejected) rejected = true
outcome_eq (some Outcome.expired) Outcome.expired = true
outcome_eq (some Outcome.cancelled) Outcome.cancelled = true
outcome_eq _ _ = false

-- `"approved" if approval.decision == "approve" else "rejected"`.
abbrev pub outcome_of : Option Decision → Outcome
outcome_of (some approve) = approved
outcome_of _ = rejected

abbrev is_acknowledgement : Outcome → Bool
is_acknowledgement approved = true
is_acknowledgement rejected = true
is_acknowledgement _ = false

-- The statuses APPLIED, EXPIRED and CANCELLED.
abbrev is_closed : ApprovalRequestStatus → Bool
is_closed ApprovalRequestStatus.applied = true
is_closed ApprovalRequestStatus.expired = true
is_closed ApprovalRequestStatus.cancelled = true
is_closed _ = false

abbrev expirable : ApprovalRequestStatus → Bool
expirable ApprovalRequestStatus.pending = true
expirable ApprovalRequestStatus.decision_recorded = true
expirable ApprovalRequestStatus.expired = true
expirable _ = false

abbrev cancellable : ApprovalRequestStatus → Bool
cancellable ApprovalRequestStatus.pending = true
cancellable ApprovalRequestStatus.decision_recorded = true
cancellable ApprovalRequestStatus.cancelled = true
cancellable _ = false

abbrev decision_for : Outcome → Decision
decision_for approved = approve
decision_for _ = reject

-- The new status of a request, by the outcome that the runtime reports.
unfoldable pub close_status : ApprovalRequest → Outcome → Result ApprovalRequestStatus
close_status a Outcome.expired = do
  ensure (expirable a.status) conflict
  ok ApprovalRequestStatus.expired
close_status a Outcome.cancelled = do
  ensure (cancellable a.status) conflict
  ok ApprovalRequestStatus.cancelled
close_status a outcome = do
  ensure (is_recorded a.status) conflict
  ensure (decision_eq a.decision (decision_for outcome)) conflict
  ok ApprovalRequestStatus.applied

abbrev is_unknown : ApprovalRequestStatus → Bool
is_unknown ApprovalRequestStatus.outcome_unknown = true
is_unknown _ = false

-- `apply_approval_resolution` on the locked request, which `_reconcile_locked` has seen.
unfoldable pub apply_reconciled : ApprovalRequest → Outcome → ℕ → Result ApprovalRequest
unfolding close_status
apply_reconciled a outcome now =
    if is_unknown a.status
    then (do
      refuse (is_acknowledgement outcome && not (outcome_eq (some outcome) (outcome_of a.decision)))
          conflict
      ok a)
    else if outcome_eq a.outcome outcome && is_closed a.status
    then ok a
    else (do
      status ← close_status a outcome
      ok (record a { status = status; outcome = some outcome; resolved_at = some now }))

-- One turn of the loop of `cancel_live_approval_requests`.
unfoldable pub cancel_live : ApprovalRequest → ℕ → ApprovalRequest
unfolding reconcile_locked
cancel_live a now =
    let r = reconcile_locked a now in
    if is_pending r.status
    then record r {
      status = ApprovalRequestStatus.cancelled;
      outcome = some Outcome.cancelled;
      resolved_at = some now;
    }
    else if is_recorded r.status
    then record r { status = ApprovalRequestStatus.outcome_unknown; resolved_at = some now }
    else r
