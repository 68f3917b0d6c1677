-- ===== src/Approvals/Lifecycle.antt =====
-- The life of one approval request: what its columns say together, and which states are final.
use allies_foundry.Base.{
  ℕ, ◌≡◌, refl, sym, subst, ◌∙◌, Bool, true, false, ◌||◌, not, Option, none, some, arith, is_some,
  ok, Ensures, Ensures-intro,
}
use allies_foundry.Models.{
  ApprovalRequest, ApprovalRequestStatus, Decision, Outcome, approved, rejected,
}
use allies_foundry.Approvals.Requests.{
  ApprovalDecisionCommand, is_pending, is_recorded, reconcile_locked, set_decision,
  apply_reconciled, cancel_live, outcome_of,
}

-- The request still waits for something.
abbrev pub is_open : ApprovalRequestStatus → Bool
is_open s = is_pending s || is_recorded s

-- What the columns of a request say in each status: the decision, the outcome and the deadline of
-- the acknowledgement.
abbrev pub Shape : ApprovalRequestStatus → Option Decision → Option Outcome → Option ℕ → Type 0
Shape ApprovalRequestStatus.pending d o t = (d ≡ none) × (o ≡ none)
Shape ApprovalRequestStatus.decision_recorded d o t =
    (is_some d ≡ true) × (o ≡ none) × (is_some t ≡ true)
Shape ApprovalRequestStatus.applied d o t = (is_some d ≡ true) × (o ≡ some (outcome_of d))
Shape ApprovalRequestStatus.expired d o t = o ≡ some Outcome.expired
Shape ApprovalRequestStatus.cancelled d o t = o ≡ some Outcome.cancelled
Shape ApprovalRequestStatus.outcome_unknown d o t = (is_some d ≡ true) × (o ≡ none)

pub record IsConsistent (a : ApprovalRequest) : Type 0 where
  pub shape : Shape a.status a.decision a.outcome a.acknowledgement_deadline_at
  pub resolved : is_some a.resolved_at ≡ not (is_open a.status)

-- The next version of a request: the same request, still consistent, and untouched if it was
-- final already.
pub record Evolves (a b : ApprovalRequest) : Type 0 where
  pub same_id : b.id ≡ a.id
  pub same_attempt : b.attempt_id ≡ a.attempt_id
  pub consistent : IsConsistent a → IsConsistent b
  pub final : IsConsistent a → is_open a.status ≡ false → b ≡ a

pub reconcile_locked-Evolves : (a : ApprovalRequest) (now : ℕ) → Evolves a (reconcile_locked a now)
unfolding reconcile_locked
reconcile_locked-Evolves a now = ground arith

pub cancel_live-Evolves : (a : ApprovalRequest) (now : ℕ) → Evolves a (cancel_live a now)
unfolding cancel_live
cancel_live-Evolves a now = ground arith

applied-Evolves :
    (a b : ApprovalRequest) (outcome : Outcome) (now : ℕ)
    → apply_reconciled a outcome now ≡ ok b
    → Evolves a b
unfolding apply_reconciled
applied-Evolves a b approved now e = ground arith
applied-Evolves a b rejected now e = ground arith
applied-Evolves a b Outcome.expired now e = ground arith
applied-Evolves a b Outcome.cancelled now e = ground arith

-- The decision of a request, as the runtime reports it, closes the request.
pub apply_reconciled-Evolves :
    (a : ApprovalRequest) (outcome : Outcome) (now : ℕ)
    → Ensures (Evolves a) (apply_reconciled a outcome now)
apply_reconciled-Evolves a outcome now =
    Ensures-intro (Evolves a) (apply_reconciled a outcome now)
      λ b e. applied-Evolves a b outcome now e

-- A recorded decision keeps a pending request consistent.
pub set_decision-Evolves :
    (a : ApprovalRequest) (command : ApprovalDecisionCommand)
    → is_pending a.status ≡ true
    → Evolves a (set_decision a command)
unfolding set_decision
set_decision-Evolves a command p = ground arith

pub Evolves-refl : (a : ApprovalRequest) → Evolves a a
Evolves-refl a = record {
  same_id = refl;
  same_attempt = refl;
  consistent = λ c. c;
  final = λ c o. refl;
}

pub Evolves-trans : (a b c : ApprovalRequest) → Evolves a b → Evolves b c → Evolves a c
Evolves-trans a b c h k = record {
  same_id = k.same_id ∙ h.same_id;
  same_attempt = k.same_attempt ∙ h.same_attempt;
  consistent = λ s. k.consistent (h.consistent s);
  final = λ s o.
      k.final (h.consistent s) (subst (λ x. is_open x.status ≡ false) (sym (h.final s o)) o)
      ∙ h.final s o;
}
