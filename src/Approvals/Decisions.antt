-- ===== src/Approvals/Decisions.antt =====
-- What a recorded decision rests on, and what its replay does.
use allies_foundry.Base.{
  ℕ, ◌≤◌, ◌<◌, ◌≡◌, refl, subst, ◌∙◌, true, Option, none, some, ◌==◌, arith, find_first, ok,
  or_raise, or_raise-eq-ok, >>=-eq-ok, not_found, does_not_exist,
}
use allies_foundry.Models.{
  Store, Workspace, Execution, Attempt, Lease, ApprovalRequest, is_active, is_live,
}
use allies_foundry.Approvals.Requests.{
  ApprovalDecisionCommand, is_pending, reconcile_locked, ensure_command_binding,
  ensure_decision_window, set_decision,
}
use allies_foundry.Approvals.Service.{
  save_approval, find_execution, find_attempt, find_lease, find_approval, ApprovalDecisionReceipt,
  accepted, decide_reconciled, record_approval_decision, lease_admits,
}

-- What holds when a decision is accepted at `now`.
pub record Admission (command : ApprovalDecisionCommand) (now : ℕ) (s t : Store) : Type 0 where
  pub workspace : Workspace
  pub attempt : Attempt
  pub lease : Lease
  pub approval : ApprovalRequest
  pub workspace_found :
      find_first (λ w. w.tenant_ref == command.cloud_workspace_id) s.workspaces ≡ some workspace
  pub attempt_found : find_attempt command.attempt_id workspace.id s ≡ some attempt
  pub lease_found : find_lease attempt.id s ≡ some lease
  pub approval_found : find_approval command.approval_request_id attempt.id s ≡ some approval
  pub lease_is_active : is_active lease.state ≡ true
  pub lease_runs : now < lease.expires_at
  pub lease_current : lease.machine_generation ≡ command.generation
  pub attempt_current : attempt.machine_generation ≡ command.generation
  pub workspace_current : workspace.machine_generation ≡ command.generation
  pub attempt_is_live : is_live attempt.status ≡ true
  pub was_pending : is_pending approval.status ≡ true
  pub decided_by_now : command.decided_at ≤ now
  pub before_deadline : now < command.deadline_at
  pub before_acknowledgement : now < command.acknowledgement_deadline_at
  pub before_expiry : now < approval.expires_at
  pub written : t ≡ save_approval (set_decision approval command) s

-- A request that is pending after the reconciliation was not touched by it.
reconcile_locked_pending :
    (a : ApprovalRequest) (now : ℕ)
    → is_pending (reconcile_locked a now).status ≡ true
    → reconcile_locked a now ≡ a
unfolding reconcile_locked
reconcile_locked_pending a now h = ground arith

-- The part of an admission that the reconciled request and the lease show.
record Checks (command : ApprovalDecisionCommand) (workspace : Workspace) (attempt : Attempt)
    (lease : Option Lease) (a : ApprovalRequest) (now : ℕ) (s t : Store) : Type 0 where
  was_pending : is_pending a.status ≡ true
  admitted : lease_admits lease attempt workspace now ≡ true
  attempt_current : attempt.machine_generation ≡ command.generation
  workspace_current : workspace.machine_generation ≡ command.generation
  attempt_is_live : is_live attempt.status ≡ true
  decided_by_now : command.decided_at ≤ now
  before_deadline : now < command.deadline_at
  before_acknowledgement : now < command.acknowledgement_deadline_at
  before_expiry : now < a.expires_at
  written : t ≡ save_approval (set_decision a command) s

accepted-Checks :
    (command : ApprovalDecisionCommand) (workspace : Workspace) (attempt : Attempt)
    (lease : Option Lease) (a : ApprovalRequest) (now : ℕ) (s t : Store)
    (r : ApprovalDecisionReceipt)
    → decide_reconciled command workspace attempt lease a now s ≡ ok (t, r)
    → r.status ≡ accepted
    → Checks command workspace attempt lease a now s t
unfolding decide_reconciled ensure_decision_window
accepted-Checks command workspace attempt lease a now s t r e h = ground arith

-- The records that a decision went through.
pub record Found (command : ApprovalDecisionCommand) (now : ℕ) (s t : Store)
    (r : ApprovalDecisionReceipt) : Type 0 where
  pub workspace : Workspace
  pub attempt : Attempt
  pub approval : ApprovalRequest
  pub execution : Execution
  pub workspace_found :
      find_first (λ w. w.tenant_ref == command.cloud_workspace_id) s.workspaces ≡ some workspace
  pub attempt_found : find_attempt command.attempt_id workspace.id s ≡ some attempt
  pub approval_found : find_approval command.approval_request_id attempt.id s ≡ some approval
  pub execution_found : find_execution approval.execution_id s ≡ some execution
  pub bound : ensure_command_binding approval execution command ≡ ok tt
  pub decided :
      decide_reconciled command workspace attempt
        (find_lease attempt.id s)
        (reconcile_locked approval now)
        now
        s
      ≡ ok (t, r)

pub found :
    (command : ApprovalDecisionCommand) (now : ℕ) (s t : Store) (r : ApprovalDecisionReceipt)
    → record_approval_decision command now s ≡ ok (t, r)
    → Found command now s t r
unfolding record_approval_decision
found command now s t r e =
    let (workspace, we, e1) =
      >>=-eq-ok
        (or_raise
          (find_first (λ (w : Workspace). w.tenant_ref == command.cloud_workspace_id) s.workspaces)
          not_found)
        _ e in
    let (attempt, ae, e2) =
      >>=-eq-ok (or_raise (find_attempt command.attempt_id workspace.id s) not_found) _ e1 in
    let (approval, pe, e3) =
      >>=-eq-ok (or_raise (find_approval command.approval_request_id attempt.id s) not_found) _
        e2 in
    let (execution, xe, e4) =
      >>=-eq-ok (or_raise (find_execution approval.execution_id s) does_not_exist) _ e3 in
    let (u, be, e5) = >>=-eq-ok (ensure_command_binding approval execution command) _ e4 in
    record {
      workspace = workspace;
      attempt = attempt;
      approval = approval;
      execution = execution;
      workspace_found = or_raise-eq-ok _ _ we;
      attempt_found = or_raise-eq-ok _ _ ae;
      approval_found = or_raise-eq-ok _ _ pe;
      execution_found = or_raise-eq-ok _ _ xe;
      bound = be;
      decided = e5;
    }

-- The lease that lets a decision through, with what was tested of it.
admitting_lease :
    (o : Option Lease) (attempt : Attempt) (workspace : Workspace) (now : ℕ)
    → lease_admits o attempt workspace now ≡ true
    → (lease : Lease) × (o ≡ some lease)
      × (is_active lease.state ≡ true)
      × (now < lease.expires_at)
      × (lease.machine_generation ≡ workspace.machine_generation)
unfolding lease_admits
admitting_lease none attempt workspace now h = cc
admitting_lease (some lease) attempt workspace now h =
    (lease, refl, ground arith, ground arith, ground arith)

-- A decision is accepted only while the request was pending and unexpired, within the command's own
-- deadlines and not before it was made, under an active lease that still runs, and with the
-- Machine generations of the lease, the attempt and the workspace all equal to the command's; and
-- what is written is this one request with the decision recorded.
pub accepted_decision :
    (command : ApprovalDecisionCommand) (now : ℕ) (s t : Store) (r : ApprovalDecisionReceipt)
    → record_approval_decision command now s ≡ ok (t, r)
    → r.status ≡ accepted
    → Admission command now s t
accepted_decision command now s t r e h =
    let f = found command now s t r e in
    let a = reconcile_locked f.approval now in
    let c =
      accepted-Checks command f.workspace f.attempt (find_lease f.attempt.id s) a now s t r
        f.decided h in
    let same = reconcile_locked_pending f.approval now c.was_pending in
    let (lease, found_lease, active, runs, current) =
      admitting_lease (find_lease f.attempt.id s) f.attempt f.workspace now c.admitted in
    record {
      workspace = f.workspace;
      attempt = f.attempt;
      lease = lease;
      approval = f.approval;
      workspace_found = f.workspace_found;
      attempt_found = f.attempt_found;
      lease_found = found_lease;
      approval_found = f.approval_found;
      lease_is_active = active;
      lease_runs = runs;
      lease_current = current ∙ c.workspace_current;
      attempt_current = c.attempt_current;
      workspace_current = c.workspace_current;
      attempt_is_live = c.attempt_is_live;
      was_pending = subst (λ (x : ApprovalRequest). is_pending x.status ≡ true) same c.was_pending;
      decided_by_now = c.decided_by_now;
      before_deadline = c.before_deadline;
      before_acknowledgement = c.before_acknowledgement;
      before_expiry = subst (λ (x : ApprovalRequest). now < x.expires_at) same c.before_expiry;
      written =
          subst (λ (x : ApprovalRequest). t ≡ save_approval (set_decision x command) s) same
            c.written;
    }
