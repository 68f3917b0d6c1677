-- ===== src/Approvals/History.antt =====
-- The approval requests of the store over any history of the services.
use allies_foundry.Base.{
  ℕ, String, ◌≡◌, refl, sym, subst, ◌∙◌, Bool, false, ◌&&◌, Option, none, some, List, ◌==◌, leb,
  All, All-update_where, find_first, find_first-All, inl, inr, Result, ok, ◌>>=◌, ensure, refuse,
  or_raise, not_found, fenced, lease_conflict, conflict, does_not_exist, RuntimeDomainError,
  Ensures, Ensures-ok, Ensures->>=, Ensures-bind, Bool-cases,
}
use allies_foundry.Models.{
  Store, Workspace, Attempt, Lease, ApprovalRequest, RuntimeContext, is_live,
}
use allies_foundry.Approvals.Requests.{
  ApprovalDecisionCommand, is_pending, reconcile_locked, same_recorded_decision,
  ensure_command_binding, ensure_decision_window, set_decision, parse_outcome, apply_reconciled,
}
use allies_foundry.Approvals.Service.{
  save_approval, find_workspace, find_execution, find_attempt, find_lease, ApprovalDecisionReceipt,
  decide_reconciled, record_approval_decision, lease_admits, lease_reads, read_runtime_approval,
  apply_approval_resolution, cancel_live_approval_requests,
}
use allies_foundry.Approvals.Lifecycle.{
  is_open, IsConsistent, Evolves, reconcile_locked-Evolves, cancel_live-Evolves,
  apply_reconciled-Evolves, set_decision-Evolves,
}

-- Every found row satisfies what all rows do.
found-All {ℓ} :
    {A : Type 0} {B : Type ℓ} (P : A → Type 0) (Q : B → Type 0) (p : A → Bool) (xs : List A)
    (e : RuntimeDomainError) (f : A → Result B)
    → All P xs
    → ((a : A) → P a → Ensures Q (f a))
    → Ensures Q (or_raise (find_first p xs) e >>= f)
found-All P Q p xs e f h k = go (find_first p xs) refl
  where
    go : (o : Option _) → find_first p xs ≡ o → Ensures Q (or_raise o e >>= f)
    go none n = tt
    go (some a) s = k a (find_first-All P p xs a h s).0

module _ (P : ApprovalRequest → Type 0)
    (stable : (a b : ApprovalRequest) → Evolves a b → P a → P b) where
  abbrev Holds : Store → Type 0
  Holds store = All P store.approvals

  save-Holds :
      (b : ApprovalRequest) (store : Store) → P b → Holds store → Holds (save_approval b store)
  save-Holds b store h hs = All-update_where P _ _ (λ x hit _. h) store.approvals hs

  abbrev HoldsWith {ℓ} : {B : Type ℓ} → Store × B → Type 0
  HoldsWith done = Holds done.0

  decide_reconciled-Holds :
      (command : ApprovalDecisionCommand) (workspace : Workspace) (attempt : Attempt)
      (lease : Option Lease) (a : ApprovalRequest) (now : ℕ) (store : Store)
      → P a
      → Holds store
      → Ensures HoldsWith (decide_reconciled command workspace attempt lease a now store)
  unfolding decide_reconciled
  decide_reconciled-Holds command workspace attempt lease a now store h hs =
      elim (Bool-cases (is_pending a.status)) [
        | inr c ↦ rw c (elim (Bool-cases (same_recorded_decision a command)) [
          | inl d ↦ rw d (save-Holds a store h hs)
          | inr d ↦ rw d tt
        ])
        | inl c ↦ rw c (
            Ensures-bind HoldsWith (ensure_decision_window a command now) _ λ _.
              Ensures-bind HoldsWith
                (ensure (lease_admits lease attempt workspace now) lease_conflict) _
                λ _.
                  Ensures-bind HoldsWith
                    (ensure
                      (workspace.machine_generation == command.generation
                        && attempt.machine_generation == command.generation)
                      fenced)
                    _
                    λ _. Ensures-bind HoldsWith (ensure (is_live attempt.status) conflict) _ λ _.
                      Ensures-bind HoldsWith (refuse (leb a.expires_at now) conflict) _ λ _.
                        save-Holds (set_decision a command) store
                          (stable a _ (set_decision-Evolves a command c) h) hs)
      ]

  record_approval_decision-Holds :
      (command : ApprovalDecisionCommand) (now : ℕ) (store : Store)
      → Holds store
      → Ensures HoldsWith (record_approval_decision command now store)
  unfolding record_approval_decision
  record_approval_decision-Holds command now store hs =
      Ensures-bind HoldsWith
        (or_raise (find_first (λ w. w.tenant_ref == command.cloud_workspace_id) store.workspaces)
          not_found)
        _
        λ workspace.
          Ensures-bind HoldsWith
            (or_raise (find_attempt command.attempt_id workspace.id store) not_found) _
            λ attempt. found-All P HoldsWith _ store.approvals not_found _ hs λ approval h.
              Ensures-bind HoldsWith
                (or_raise (find_execution approval.execution_id store) does_not_exist) _
                λ execution.
                  Ensures-bind HoldsWith (ensure_command_binding approval execution command) _ λ _.
                    decide_reconciled-Holds command workspace attempt (find_lease attempt.id store)
                      (reconcile_locked approval now) now store
                      (stable approval _ (reconcile_locked-Evolves approval now) h) hs

  read_runtime_approval-Holds :
      (context : RuntimeContext) (attempt_id token_digest request_id now : ℕ) (store : Store)
      → Holds store
      → Ensures HoldsWith
          (read_runtime_approval context attempt_id token_digest request_id now store)
  unfolding read_runtime_approval
  read_runtime_approval-Holds context attempt_id token_digest request_id now store hs =
      Ensures-bind HoldsWith (or_raise (find_workspace context.workspace_id store) does_not_exist) _
        λ workspace.
          Ensures-bind HoldsWith
            (ensure (workspace.machine_generation == context.machine_generation) fenced) _
            λ _.
              Ensures-bind HoldsWith
                (or_raise (find_attempt attempt_id workspace.id store) lease_conflict) _
                λ attempt.
                  Ensures-bind HoldsWith
                    (or_raise (find_execution attempt.execution_id store) does_not_exist) _
                    λ execution.
                      Ensures-bind HoldsWith
                        (ensure
                          (lease_reads (find_lease attempt.id store) token_digest context
                            execution.profile_id now)
                          lease_conflict)
                        _
                        λ _. found-All P HoldsWith _ store.approvals not_found _ hs λ approval h.
                          save-Holds (reconcile_locked approval now) store
                            (stable approval _ (reconcile_locked-Evolves approval now) h) hs

  apply_approval_resolution-Holds :
      (attempt_id request_id : ℕ) (text : String) (now later : ℕ) (store : Store)
      → Holds store
      → Ensures HoldsWith (apply_approval_resolution attempt_id request_id text now later store)
  unfolding apply_approval_resolution
  apply_approval_resolution-Holds attempt_id request_id text now later store hs =
      Ensures-bind HoldsWith (parse_outcome text) _ λ outcome.
        found-All P HoldsWith _ store.approvals conflict _ hs λ approval h.
          let r = reconcile_locked approval now in
          Ensures->>= (Evolves r) HoldsWith (apply_reconciled r outcome later) _
            (apply_reconciled-Evolves r outcome later)
            λ a ev.
              save-Holds a store
                (stable r a ev (stable approval r (reconcile_locked-Evolves approval now) h)) hs

  pub cancel_live_approval_requests-Holds :
      (attempt_id now : ℕ) (store : Store)
      → Holds store
      → Holds (cancel_live_approval_requests attempt_id now store)
  unfolding cancel_live_approval_requests
  cancel_live_approval_requests-Holds attempt_id now store hs =
      All-update_where P _ _ (λ a hit h. stable a _ (cancel_live-Evolves a now) h) store.approvals
        hs

-- A committed transaction of the approvals service.
pub data Step (s t : Store) : Type 0 where
  decided :
      (command : ApprovalDecisionCommand) (now : ℕ) (receipt : ApprovalDecisionReceipt)
      → record_approval_decision command now s ≡ ok (t, receipt)
      → Step s t
  read :
      (context : RuntimeContext) (attempt_id token_digest request_id now : ℕ) (a : ApprovalRequest)
      → read_runtime_approval context attempt_id token_digest request_id now s ≡ ok (t, a)
      → Step s t
  resolved :
      (attempt_id request_id : ℕ) (text : String) (now later : ℕ) (a : ApprovalRequest)
      → apply_approval_resolution attempt_id request_id text now later s ≡ ok (t, a)
      → Step s t
  cancelled : (attempt_id now : ℕ) → cancel_live_approval_requests attempt_id now s ≡ t → Step s t

pub data History (start : Store) : Store → Type 0 where
  here : History start start
  next : {s t : Store} → History start s → Step s t → History start t

module _ (P : ApprovalRequest → Type 0)
    (stable : (a b : ApprovalRequest) → Evolves a b → P a → P b) where
  Step-All : {s t : Store} → Step s t → All P s.approvals → All P t.approvals
  Step-All {s} (decided command now receipt e) h =
      Ensures-ok (HoldsWith P stable) _ (record_approval_decision-Holds P stable command now s h) e
  Step-All {s} (read context attempt_id token_digest request_id now a e) h =
      Ensures-ok (HoldsWith P stable) _
        (read_runtime_approval-Holds P stable context attempt_id token_digest request_id now s h) e
  Step-All {s} (resolved attempt_id request_id text now later a e) h =
      Ensures-ok (HoldsWith P stable) _
        (apply_approval_resolution-Holds P stable attempt_id request_id text now later s h) e
  Step-All {s} (cancelled attempt_id now e) h =
      subst (λ (t : Store). All P t.approvals) e
        (cancel_live_approval_requests-Holds P stable attempt_id now s h)

  History-All : {s t : Store} → History s t → All P s.approvals → All P t.approvals
  History-All here h = h
  History-All (next l st) h = Step-All st (History-All l h)

-- Through any history of decisions, reads, resolutions and cancellations the columns of every
-- request stay consistent: a pending one has neither decision nor outcome; a recorded or applied
-- decision is there, with its deadline while it waits; the outcome of an applied one is that of
-- its decision; an expired or a cancelled one says so; and a request has a time of resolution
-- exactly when it no longer waits.
pub History-IsConsistent :
    (s t : Store) → History s t → All IsConsistent s.approvals → All IsConsistent t.approvals
History-IsConsistent s t l = History-All IsConsistent (λ a b ev c. ev.consistent c) l

-- The rows under the key of `a` are `a`.
abbrev pub IsOnly : ApprovalRequest → ApprovalRequest → Type 0
IsOnly a b = IsConsistent b × (b.id ≡ a.id → b ≡ a)

-- A request that is applied, expired, cancelled or of unknown outcome is final: through any
-- history of decisions, reads, resolutions and cancellations its row does not change in any
-- column.
pub History-final :
    (s t : Store) (a : ApprovalRequest)
    → History s t
    → is_open a.status ≡ false
    → All (IsOnly a) s.approvals
    → All (IsOnly a) t.approvals
History-final s t a l o =
    History-All (IsOnly a) (λ b c ev h. (ev.consistent h.0, λ same. final b c ev h same)) l
  where
    final : (b c : ApprovalRequest) → Evolves b c → IsOnly a b → c.id ≡ a.id → c ≡ a
    final b c ev h same =
        let is_a = h.1 (sym ev.same_id ∙ same) in
        ev.final h.0 (subst (λ (x : ApprovalRequest). is_open x.status ≡ false) (sym is_a) o) ∙ is_a
