-- ===== src/Approvals/Service.antt =====
-- The transactions of backend/runtime/services/approvals.py over the store. A service returns the
-- new store with its result; where it raises, its transaction is rolled back.
use allies_foundry.Base.{
  ℕ, ◌+◌, ◌-◌, String, Bool, false, ◌&&◌, ◌||◌, not, Option, none, some, List, [], ◌∷◌, ltb, leb,
  ◌==◌, if◌then◌else◌, text_eq, find_first, update_where, Result, ok, err, ◌>>=◌, ◌>>◌, ensure,
  refuse, or_raise, validation, conflict, not_found, fenced, lease_conflict, does_not_exist,
}
use allies_foundry.Models.{
  Store, Workspace, Execution, Attempt, Lease, ApprovalRequest, RuntimeContext, seconds, is_active,
  is_live,
}
use allies_foundry.Approvals.Requests.{
  ApprovalDecisionCommand, is_pending, is_recorded, reconcile_locked, same_recorded_decision,
  ensure_command_binding, ensure_decision_window, set_decision, parse_outcome, apply_reconciled,
  cancel_live,
}

-- `approval.save()`.
abbrev pub save_approval : ApprovalRequest → Store → Store
save_approval a store = record store {
  approvals = update_where (λ x. x.id == a.id) (λ _. a) store.approvals;
}

abbrev pub find_workspace : ℕ → Store → Option Workspace
find_workspace k store = find_first (λ w. w.id == k) store.workspaces

abbrev pub find_execution : ℕ → Store → Option Execution
find_execution k store = find_first (λ e. e.id == k) store.executions

abbrev pub in_workspace : ℕ → Option Execution → Bool
in_workspace workspace_id none = false
in_workspace workspace_id (some e) = e.workspace_id == workspace_id

-- `Attempt.filter(pk=k, execution__workspace_id=workspace_id).first()`.
abbrev pub find_attempt : ℕ → ℕ → Store → Option Attempt
find_attempt k workspace_id store =
    find_first (λ a. a.id == k && in_workspace workspace_id (find_execution a.execution_id store))
      store.attempts

-- `Lease.filter(attempt=…).first()`.
abbrev pub find_lease : ℕ → Store → Option Lease
find_lease attempt_id store = find_first (λ l. l.attempt_id == attempt_id) store.leases

abbrev pub find_approval : ℕ → ℕ → Store → Option ApprovalRequest
find_approval k attempt_id store =
    find_first (λ a. a.id == k && a.attempt_id == attempt_id) store.approvals

pub data DecisionStatus : Type 0 where
  accepted duplicate : DecisionStatus

pub record ApprovalDecisionReceipt : Type 0 where
  pub status : DecisionStatus
  pub command_id : ℕ
  pub idempotency_key : ℕ
  pub approval_request_id : ℕ
  pub fingerprint : String

-- `_decision_receipt`.
unfoldable pub decision_receipt : ApprovalDecisionCommand → DecisionStatus → ApprovalDecisionReceipt
decision_receipt command status = record {
  status = status;
  command_id = command.command_id;
  idempotency_key = command.idempotency_key;
  approval_request_id = command.approval_request_id;
  fingerprint = command.fingerprint;
}

-- `validate_approval_decision` of backend/runtime/contracts.py; `canonical` is the fingerprint of
-- the command's envelope.
unfoldable pub validate_approval_decision : ApprovalDecisionCommand → String → Result (Unit {0})
validate_approval_decision command canonical = do
  refuse (leb command.acknowledgement_deadline_at command.decided_at) validation
  ensure (command.acknowledgement_deadline_at - command.decided_at == seconds 30) validation
  refuse
      (leb command.deadline_at command.issued_at
        || ltb (seconds 60) (command.deadline_at - command.issued_at))
      validation
  ensure (text_eq command.fingerprint canonical) validation

-- The lease that lets a decision through.
unfoldable pub lease_admits : Option Lease → Attempt → Workspace → ℕ → Bool
lease_admits none attempt workspace now = false
lease_admits (some lease) attempt workspace now =
    is_active lease.state
    && ltb now lease.expires_at
    && lease.machine_generation == workspace.machine_generation
    && lease.machine_generation == attempt.machine_generation

-- `record_once` from the reconciled request on.
unfoldable pub decide_reconciled :
    ApprovalDecisionCommand
    → Workspace
    → Attempt
    → Option Lease
    → ApprovalRequest
    → ℕ
    → Store
    → Result (Store × ApprovalDecisionReceipt)
unfolding decision_receipt
decide_reconciled command workspace attempt lease a now store =
    if not (is_pending a.status)
    then if same_recorded_decision a command
      then ok (save_approval a store, decision_receipt command duplicate)
      else err conflict
    else (do
      ensure_decision_window a command now
      ensure (lease_admits lease attempt workspace now) lease_conflict
      ensure
          (workspace.machine_generation == command.generation
            && attempt.machine_generation == command.generation)
          fenced
      ensure (is_live attempt.status) conflict
      refuse (leb a.expires_at now) conflict
      ok (save_approval (set_decision a command) store, decision_receipt command accepted))

-- `record_once` of `record_approval_decision`.
unfoldable pub record_approval_decision :
    ApprovalDecisionCommand → ℕ → Store → Result (Store × ApprovalDecisionReceipt)
record_approval_decision command now store = do
  workspace ←
      or_raise (find_first (λ w. w.tenant_ref == command.cloud_workspace_id) store.workspaces)
        not_found
  attempt ← or_raise (find_attempt command.attempt_id workspace.id store) not_found
  let lease = find_lease attempt.id store
  approval ← or_raise (find_approval command.approval_request_id attempt.id store) not_found
  execution ← or_raise (find_execution approval.execution_id store) does_not_exist
  ensure_command_binding approval execution command
  decide_reconciled command workspace attempt lease (reconcile_locked approval now) now store

unfoldable pub lease_reads : Option Lease → ℕ → RuntimeContext → ℕ → ℕ → Bool
lease_reads none token_digest context profile_id now = false
lease_reads (some lease) token_digest context profile_id now =
    lease.token_digest == token_digest
    && lease.machine_generation == context.machine_generation
    && lease.profile_id == profile_id
    && is_active lease.state
    && ltb now lease.expires_at

-- `read_once` of `read_runtime_approval`; the status that it returns is read off the request.
unfoldable pub read_runtime_approval :
    RuntimeContext → ℕ → ℕ → ℕ → ℕ → Store → Result (Store × ApprovalRequest)
unfolding lease_reads
read_runtime_approval context attempt_id token_digest request_id now store = do
  workspace ← or_raise (find_workspace context.workspace_id store) does_not_exist
  ensure (workspace.machine_generation == context.machine_generation) fenced
  attempt ← or_raise (find_attempt attempt_id workspace.id store) lease_conflict
  execution ← or_raise (find_execution attempt.execution_id store) does_not_exist
  ensure (lease_reads (find_lease attempt.id store) token_digest context execution.profile_id now)
      lease_conflict
  approval ←
      or_raise
        (find_first
          (λ a. a.id == request_id && a.attempt_id == attempt.id && a.workspace_id == workspace.id)
          store.approvals)
        not_found
  let a = reconcile_locked approval now
  ok (save_approval a store, a)

-- `apply_approval_resolution`; `now` is read by the reconciliation and `later` by the resolution.
unfoldable pub apply_approval_resolution :
    ℕ → ℕ → String → ℕ → ℕ → Store → Result (Store × ApprovalRequest)
apply_approval_resolution attempt_id request_id text now later store = do
  outcome ← parse_outcome text
  approval ← or_raise (find_approval request_id attempt_id store) conflict
  a ← apply_reconciled (reconcile_locked approval now) outcome later
  ok (save_approval a store, a)

-- The filter of `cancel_live_approval_requests`.
abbrev pub is_cancelled_with : ℕ → ApprovalRequest → Bool
is_cancelled_with attempt_id a =
    a.attempt_id == attempt_id && (is_pending a.status || is_recorded a.status)

-- `cancel_live_approval_requests` on the store; its count is `transitioned`.
unfoldable pub cancel_live_approval_requests : ℕ → ℕ → Store → Store
cancel_live_approval_requests attempt_id now store = record store {
  approvals = update_where (is_cancelled_with attempt_id) (λ a. cancel_live a now) store.approvals;
}

-- A request is counted unless the reconciliation has just closed it.
unfoldable pub transitioned : ℕ → ℕ → List ApprovalRequest → ℕ
transitioned attempt_id now [] = 0
transitioned attempt_id now (a ∷ as') =
    let r = reconcile_locked a now in
    (if is_cancelled_with attempt_id a && (is_pending r.status || is_recorded r.status)
      then 1
      else 0)
    + transitioned attempt_id now as'
