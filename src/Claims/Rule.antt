-- ===== src/Claims/Rule.antt =====
-- What holds of the answer to a claim, from what holds of a grant and of a replay.
use allies_foundry.Base.{
  ℕ, ◌+◌, ◌≡◌, refl, ◌∙◌, true, false, ◌&&◌, Option, none, some, is_some, List, [], ◌∷◌, ◌==◌, leb,
  if◌then◌else◌, opt_eq, inl, inr, Bool-cases, select, map, find_first, Result, ok, err, ensure,
  refuse, or_raise, conflict, validation, authorization, not_found, repair_required, fenced,
  not_ready, lease_conflict, integrity_error, idempotency_conflict, does_not_exist, Ensures,
  Ensures-bind, Ensures->>=, Ensures-option, Ensures-ensure, Ensures-intro,
}
use allies_foundry.Models.{
  Store, Workspace, RuntimeProfile, Execution, Attempt, RoutineExecution, RoutineLeaseAcquisition,
  RuntimeContext,
}
use allies_foundry.Delivery.Repair.{Wire}
use allies_foundry.Approvals.Service.{find_workspace}
use allies_foundry.Events.Expiry.{Expiry}
use allies_foundry.Claims.Ready.{
  Settings, has_machine, profile_is_claim_ready, require_routine_admission,
  require_current_runtime_ready_locked,
}
use allies_foundry.Claims.Expired.{reconcile_expired_leases}
use allies_foundry.Claims.Candidate.{
  Claim, NewKeys, scope_of, find_routine, is_claimable, claim_attempt, create_attempt,
  resume_attempt, current_attempt, start_work, is_waiting, attempt_clashes, new_attempt,
  latest_number,
}
use allies_foundry.Claims.Granting.{
  Candidate, passed, unready, routine_not_ready, routine_fenced, claimed, consider, grant,
  take_candidate, admit_candidate, holds_scope,
}
use allies_foundry.Claims.Service.{
  Seen, Database, nothing_claimed, after_candidate, claim_first, is_candidate, claim_new,
  replay_attempt, replay_acquisition, claim_reconciled, claim_next_execution_once,
  claim_next_execution,
}
use allies_foundry.Claims.Reconciling.{update_routine-leases}

-- The lease table is as it was, where there is a store.
abbrev SameLeases {ℓ} : {B : Type ℓ} → Store → Option (Store × B) → Type 0
SameLeases s none = Unit
SameLeases s (some done) = done.0.leases ≡ s.leases

claim_attempt-SameLeases :
    (id claim_id : ℕ) (workspace : Workspace) (execution : Execution)
    (routine : Option RoutineExecution) (now : ℕ) (s : Store)
    → Ensures (SameLeases s) (claim_attempt id claim_id workspace execution routine now s)
unfolding claim_attempt resume_attempt create_attempt
claim_attempt-SameLeases id claim_id workspace execution routine now s =
    Ensures-option (SameLeases s) (current_attempt routine) _ _
      (Ensures->>= (λ (done : Store × Attempt). done.0.leases ≡ s.leases) (SameLeases s)
        (create_attempt id claim_id workspace execution routine now s) _ created λ done h. h)
      λ attempt_id.
        Ensures-bind (SameLeases s)
          (or_raise (find_first (λ a. a.id == attempt_id) s.attempts) does_not_exist) _
          λ attempt. elim (Bool-cases (is_waiting attempt.status)) [
            | inl c ↦ rw c refl
            | inr c ↦ rw c tt
          ]
  where
    created :
        Ensures
          (λ (done : Store × Attempt). done.0.leases ≡ s.leases)
          (create_attempt id claim_id workspace execution routine now s)
    created =
        let attempt =
          new_attempt id execution (latest_number execution.id s.attempts + 1)
            workspace.machine_generation (if is_some routine then none else some claim_id) now in
        Ensures-bind (λ (done : Store × Attempt). done.0.leases ≡ s.leases)
          (refuse (is_some (find_first (attempt_clashes attempt) s.attempts)) idempotency_conflict)
          _ λ _. refl

module _ (P : Store → Type 0) (Q : Store → Claim → Type 0) where
  -- The store of a candidate that is passed over satisfies P, and a claim satisfies Q.
  abbrev pub CandidateHolds : Candidate → Type 0
  CandidateHolds (passed s) = P s
  CandidateHolds (claimed s claim) = Q s claim
  CandidateHolds _ = Unit

  abbrev pub AnswerHolds : Store × Option Claim → Type 0
  AnswerHolds (s, none) = P s
  AnswerHolds (s, some claim) = Q s claim

  admit_candidate-Holds :
      (answer : Result (Unit {0})) (rest : Result Candidate)
      → Ensures CandidateHolds rest
      → Ensures CandidateHolds (admit_candidate answer rest)
  unfolding admit_candidate
  admit_candidate-Holds (ok answer) rest h = h
  admit_candidate-Holds (err validation) rest h = tt
  admit_candidate-Holds (err conflict) rest h = tt
  admit_candidate-Holds (err authorization) rest h = tt
  admit_candidate-Holds (err not_found) rest h = tt
  admit_candidate-Holds (err fenced) rest h = tt
  admit_candidate-Holds (err not_ready) rest h = tt
  admit_candidate-Holds (err repair_required) rest h = tt
  admit_candidate-Holds (err lease_conflict) rest h = tt
  admit_candidate-Holds (err integrity_error) rest h = tt
  admit_candidate-Holds (err idempotency_conflict) rest h = tt
  admit_candidate-Holds (err does_not_exist) rest h = tt

  nothing_claimed-Holds :
      (seen : Seen) (s : Store) → P s → Ensures AnswerHolds (nothing_claimed seen s)
  unfolding nothing_claimed
  nothing_claimed-Holds seen s h =
      Ensures-bind AnswerHolds (refuse seen.unready_profile not_ready) _ λ _.
        Ensures-bind AnswerHolds (refuse seen.routine_fenced fenced) _
          λ _. Ensures-bind AnswerHolds (refuse seen.routine_not_ready not_ready) _ λ _. h

  after_candidate-Holds :
      (candidate : Candidate) (seen : Seen) (s : Store)
      (rest : Seen → Store → Result (Store × Option Claim))
      → P s
      → CandidateHolds candidate
      → ((seen' : Seen) (t : Store) → P t → Ensures AnswerHolds (rest seen' t))
      → Ensures AnswerHolds (after_candidate candidate seen s rest)
  unfolding after_candidate
  after_candidate-Holds (passed t) seen s rest h sound go = go seen t sound
  after_candidate-Holds unready seen s rest h sound go =
      go (record seen { unready_profile = true }) s h
  after_candidate-Holds routine_not_ready seen s rest h sound go =
      go (record seen { routine_not_ready = true }) s h
  after_candidate-Holds routine_fenced seen s rest h sound go =
      go (record seen { routine_fenced = true }) s h
  after_candidate-Holds (claimed t claim) seen s rest h sound go = sound

  module _ (settings : Settings) (claim_id : ℕ) (workspace : Workspace) (now : ℕ)
      (stable : (s t : Store) → t.leases ≡ s.leases → P s → P t)
      (grants : (keys : NewKeys) (profile : RuntimeProfile) (execution : Execution)
          (routine : Option RoutineExecution) (attempt : Attempt) (s : Store)
        → P s
        → Ensures CandidateHolds
            (grant settings keys claim_id workspace profile execution routine attempt now s)) where
    take_candidate-Holds :
        (keys : NewKeys) (profile : RuntimeProfile) (execution : Execution)
        (routine : Option RoutineExecution) (s : Store)
        → P s
        → Ensures CandidateHolds
            (take_candidate settings keys claim_id workspace profile execution routine now s)
    unfolding take_candidate start_work
    take_candidate-Holds keys profile execution routine s h =
        elim (Bool-cases
          (is_some (find_first (holds_scope profile.id (scope_of routine)) s.leases))) [
            | inl c ↦ rw c h
            | inr c ↦ rw c (
                Ensures->>= (SameLeases s) CandidateHolds
                  (claim_attempt keys.attempt claim_id workspace execution routine now s) _
                  (claim_attempt-SameLeases keys.attempt claim_id workspace execution routine now s)
                  after_attempt)
          ]
      where
        after_attempt :
            (o : Option (Store × Attempt))
            → SameLeases s o
            → Ensures CandidateHolds (elim o [
              | none ↦ ok (passed s)
              | some done ↦
                  grant settings keys claim_id workspace profile execution routine done.1 now
                    (start_work workspace execution routine done.1 done.0)
            ])
        after_attempt none k = h
        after_attempt (some done) k =
            grants keys profile execution routine done.1
              (start_work workspace execution routine done.1 done.0)
              (stable s _ (update_routine-leases routine _ _ ∙ k) h)

    consider-Holds :
        (keys : NewKeys) (k : ℕ) (s : Store)
        → P s
        → Ensures CandidateHolds (consider settings keys claim_id workspace now k s)
    unfolding consider
    consider-Holds keys k s h =
        Ensures-option CandidateHolds (find_first (λ e. e.id == k) s.executions) (ok (passed s)) _ h
          λ hint.
            Ensures-option CandidateHolds
              (find_first (λ p. p.id == hint.profile_id && p.workspace_id == workspace.id)
                s.profiles)
              (ok (passed s)) _ h
              λ profile.
                Ensures-option CandidateHolds
                  (find_first (λ e. e.id == k && e.workspace_id == workspace.id) s.executions)
                  (ok (passed s)) _ h
                  λ execution.
                    let routine = find_routine execution.id s in
                    let taken = take_candidate-Holds keys profile execution routine s h in
                    elim (Bool-cases (is_claimable routine execution s)) [
                      | inr c ↦ rw c h
                      | inl c ↦
                          elim (Bool-cases
                            (profile_is_claim_ready profile workspace.machine_generation)) [
                              | inr d ↦ rw (c, d) tt
                              | inl d ↦ elim (Bool-cases (is_some routine)) [
                                | inr e ↦ rw (c, d, e) taken
                                | inl e ↦
                                    rw (c, d, e)
                                      (admit_candidate-Holds
                                        (require_routine_admission settings workspace now) _ taken)
                              ]
                            ]
                    ]

    claim_first-Holds :
        (keys : NewKeys) (ks : List ℕ) (seen : Seen) (s : Store)
        → P s
        → Ensures AnswerHolds (claim_first settings keys claim_id workspace now ks seen s)
    unfolding claim_first
    claim_first-Holds keys [] seen s h = nothing_claimed-Holds seen s h
    claim_first-Holds keys (k ∷ ks) seen s h =
        Ensures->>= CandidateHolds AnswerHolds (consider settings keys claim_id workspace now k s) _
          (consider-Holds keys k s h)
          λ candidate sound.
            after_candidate-Holds candidate seen s _ h sound (claim_first-Holds keys ks)

    module _ (database : Database) (s : Store)
        (attempt_replays : (attempt : Attempt)
          → Ensures (λ o. AnswerHolds (s, o)) (replay_attempt settings workspace attempt now s))
        (acquisition_replays : (acquisition : RoutineLeaseAcquisition)
          → Ensures
              (λ o. AnswerHolds (s, o))
              (replay_acquisition settings workspace acquisition now s)) where
      pub claim_reconciled-Holds :
          P s → Ensures AnswerHolds (claim_reconciled settings database claim_id workspace now s)
      unfolding claim_reconciled claim_new
      claim_reconciled-Holds h =
          Ensures-option AnswerHolds
            (find_first (λ a. opt_eq a.claim_id (some claim_id)) s.attempts) _ _
            (Ensures-option AnswerHolds (find_first (λ a. a.claim_id == claim_id) s.acquisitions) _
              _
              (claim_first-Holds database.keys
                (map (λ e. e.id)
                  (database.by_creation (select (is_candidate workspace) s.executions)))
                (record {
                  unready_profile = false;
                  routine_not_ready = false;
                  routine_fenced = false;
                })
                s h)
              λ acquisition.
                Ensures->>= (λ o. AnswerHolds (s, o)) AnswerHolds
                  (replay_acquisition settings workspace acquisition now s) _
                  (acquisition_replays acquisition) λ answer k. k)
            λ attempt.
              Ensures->>= (λ o. AnswerHolds (s, o)) AnswerHolds
                (replay_attempt settings workspace attempt now s) _ (attempt_replays attempt)
                λ answer k. k

module _ (w : Store → Wire) (x : Expiry) (settings : Settings) (database : Database)
    (record_failure : ℕ → Store → Result Store) (Q : Store × Option Claim → Type 0)
    (context : RuntimeContext) (claim_id slots now : ℕ) (s : Store) where
  -- A postcondition of a claim, from what its last part ensures.
  pub claim_rule :
      ((workspace : Workspace) (t : Store)
        → (workspace.machine_generation == context.machine_generation) ≡ true
        → reconcile_expired_leases w x settings record_failure database.by_expiry database.fresh
            workspace now s
          ≡ ok t
        → Ensures Q (claim_reconciled settings database claim_id workspace now t))
      → Ensures Q
          (claim_next_execution w x settings database record_failure context claim_id slots now s)
  unfolding claim_next_execution claim_next_execution_once
  claim_rule last = Ensures-bind Q (ensure (leb 1 slots && leb slots 8) validation) _ λ _.
      Ensures-bind Q (or_raise (find_workspace context.workspace_id s) lease_conflict) _
        λ workspace.
          Ensures-ensure Q (workspace.machine_generation == context.machine_generation) fenced _
            λ current. Ensures-bind Q (ensure (has_machine workspace) not_ready) _ λ _.
              Ensures-bind Q (require_current_runtime_ready_locked settings workspace context now) _
                λ _.
                  let m =
                    reconcile_expired_leases w x settings record_failure database.by_expiry
                      database.fresh workspace now s in
                  Ensures->>= (λ t. m ≡ ok t) Q m _ (Ensures-intro _ m (λ t e. e))
                    λ t e. last workspace t current e
