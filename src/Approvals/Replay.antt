-- ===== src/Approvals/Replay.antt =====
-- A decision may be sent again: the replay is recognised.
use allies_foundry.Base.{
  ℕ, ◌≡◌, refl, sym, subst, true, false, ◌&&◌, Option, some, List, [], ◌∷◌, ◌==◌, arith,
  text_eq_refl, find_first-All, find_first-replace, All, ok, Bool-cases, inl, inr,
}
use allies_foundry.Models.{Store, Workspace, Execution, Attempt, Lease, ApprovalRequest}
use allies_foundry.Approvals.Requests.{
  ApprovalDecisionCommand, is_pending, reconcile_locked, same_recorded_decision,
  ensure_command_binding, set_decision,
}
use allies_foundry.Approvals.Service.{
  save_approval, find_approval, find_execution, decision_receipt, ApprovalDecisionReceipt,
  duplicate, decide_reconciled, record_approval_decision,
}
use allies_foundry.Approvals.Decisions.{Found, found}

-- The request that a decision leaves behind.
record Recorded (a b : ApprovalRequest) (command : ApprovalDecisionCommand) : Type 0 where
  same_id : b.id ≡ a.id
  same_attempt : b.attempt_id ≡ a.attempt_id
  same_execution : b.execution_id ≡ a.execution_id
  same_generation : b.generation ≡ a.generation
  not_pending : is_pending b.status ≡ false
  same_decision : same_recorded_decision b command ≡ true

same_recorded-set :
    (a : ApprovalRequest) (command : ApprovalDecisionCommand)
    → same_recorded_decision (set_decision a command) command ≡ true
unfolding same_recorded_decision set_decision
same_recorded-set a command = ground (arith, text_eq_refl command.fingerprint)

set_decision-Recorded :
    (a : ApprovalRequest) (command : ApprovalDecisionCommand)
    → Recorded a (set_decision a command) command
set_decision-Recorded a command = record {
  same_id = unfold set_decision in refl;
  same_attempt = unfold set_decision in refl;
  same_execution = unfold set_decision in refl;
  same_generation = unfold set_decision in refl;
  not_pending = unfold set_decision in refl;
  same_decision = same_recorded-set a command;
}

same_decision-Recorded :
    (a : ApprovalRequest) (command : ApprovalDecisionCommand)
    → is_pending a.status ≡ false
    → same_recorded_decision a command ≡ true
    → Recorded a a command
same_decision-Recorded a command p d = ground (arith, p, d)

-- Whether the decision was accepted or a duplicate, such a request was written.
written :
    (command : ApprovalDecisionCommand) (workspace : Workspace) (attempt : Attempt)
    (lease : Option Lease) (a : ApprovalRequest) (now : ℕ) (s t : Store)
    (r : ApprovalDecisionReceipt)
    → decide_reconciled command workspace attempt lease a now s ≡ ok (t, r)
    → (b : ApprovalRequest) × Recorded a b command × (t ≡ save_approval b s)
unfolding decide_reconciled
written command workspace attempt lease a now s t r e = elim (Bool-cases (is_pending a.status)) [
  | inl p ↦ (set_decision a command, set_decision-Recorded a command, ground (arith, p))
  | inr p ↦ (a, same_decision-Recorded a command p (ground (arith, p)), ground (arith, p))
]

reconcile_locked-Recorded :
    (a : ApprovalRequest) (now : ℕ) (b : ApprovalRequest) (command : ApprovalDecisionCommand)
    → Recorded (reconcile_locked a now) b command
    → Recorded a b command
unfolding reconcile_locked
reconcile_locked-Recorded a now b command h = ground arith

-- Nor does a later reconciliation undo it.
Recorded-reconcile_locked :
    (a b : ApprovalRequest) (now : ℕ) (command : ApprovalDecisionCommand)
    → Recorded a b command
    → Recorded a (reconcile_locked b now) command
unfolding reconcile_locked same_recorded_decision
Recorded-reconcile_locked a b now command h = ground arith

binding-Recorded :
    (a b : ApprovalRequest) (execution : Execution) (command : ApprovalDecisionCommand)
    → Recorded a b command
    → ensure_command_binding a execution command ≡ ok tt
    → ensure_command_binding b execution command ≡ ok tt
unfolding ensure_command_binding
binding-Recorded a b execution command h e = ground arith

decide_again :
    (command : ApprovalDecisionCommand) (workspace : Workspace) (attempt : Attempt)
    (lease : Option Lease) (a b : ApprovalRequest) (now : ℕ) (s : Store)
    → Recorded a b command
    → decide_reconciled command workspace attempt lease b now s
      ≡ ok (save_approval b s, decision_receipt command duplicate)
unfolding decide_reconciled
decide_again command workspace attempt lease a b now s h = ground arith

any_row : (xs : List ApprovalRequest) → All (λ _. Unit {0}) xs
any_row [] = tt
any_row (x ∷ xs) = (tt, any_row xs)

-- The request is found under the same keys after it was written.
find_written :
    (k attempt_id : ℕ) (a b : ApprovalRequest) (command : ApprovalDecisionCommand) (s : Store)
    → Recorded a b command
    → find_approval k attempt_id s ≡ some a
    → find_approval k attempt_id (save_approval b s) ≡ some b
find_written k attempt_id a b command s h e =
    let passes =
      (find_first-All (λ _. Unit {0})
        (λ (x : ApprovalRequest). x.id == k && x.attempt_id == attempt_id) s.approvals a
        (any_row s.approvals) e).1 in
    find_first-replace (λ x. x.id) _ a b s.approvals e (rw (h.same_id, h.same_attempt) passes)
      h.same_id

execution_of :
    (a b : ApprovalRequest) (execution : Execution) (command : ApprovalDecisionCommand) (s : Store)
    → Recorded a b command
    → find_execution a.execution_id s ≡ some execution
    → find_execution b.execution_id s ≡ some execution
execution_of a b execution command s h e =
    subst (λ (k : ℕ). find_execution k s ≡ some execution) (sym h.same_execution) e

replay_written :
    (command : ApprovalDecisionCommand) (now later : ℕ) (s t : Store) (r : ApprovalDecisionReceipt)
    (f : Found command now s t r) (b : ApprovalRequest)
    → Recorded f.approval b command
    → record_approval_decision command later (save_approval b s)
      ≡ ok (
        save_approval (reconcile_locked b later) (save_approval b s),
        decision_receipt command duplicate,
      )
unfolding record_approval_decision
replay_written command now later s t r f b h =
    rw
      (
        f.workspace_found,
        f.attempt_found,
        find_written command.approval_request_id f.attempt.id f.approval b command s h
            f.approval_found,
        execution_of f.approval b f.execution command s h f.execution_found,
        binding-Recorded f.approval b f.execution command h f.bound,
      )
      (decide_again command f.workspace f.attempt _ f.approval (reconcile_locked b later) later _
        (Recorded-reconcile_locked f.approval b later command h))

-- A decision that was recorded, or found recorded, may be sent again at any time: the replay is
-- answered as a duplicate, even after the acknowledgement deadline, when the request has become
-- one of unknown outcome. What is written then is the reconciled request alone.
pub replayed_decision :
    (command : ApprovalDecisionCommand) (now later : ℕ) (s t : Store) (r : ApprovalDecisionReceipt)
    → record_approval_decision command now s ≡ ok (t, r)
    → (b : ApprovalRequest) × (t ≡ save_approval b s)
      × (record_approval_decision command later t
          ≡ ok (save_approval (reconcile_locked b later) t, decision_receipt command duplicate))
replayed_decision command now later s t r e =
    let f = found command now s t r e in
    let (b, recorded, w) =
      written command f.workspace f.attempt _ (reconcile_locked f.approval now) now s t r
        f.decided in
    (
      b,
      w,
      rw w (
          replay_written command now later s t r f b
            (reconcile_locked-Recorded f.approval now b command recorded)),
    )
