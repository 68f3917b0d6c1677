-- ===== src/Leases/Replay.antt =====
-- A stop, and the end of an attempt, may be sent again: the stored receipt answers.
use allies_foundry.Base.{
  ℕ, ◌≡◌, refl, ◌∙◌, String, Bool, true, ◌&&◌, none, some, is_some, ◌==◌, opt_eq, if◌then◌else◌,
  arith, inl, inr, Bool-cases, Result, ok, >>=-eq-ok, Ensures, Ensures-ok, Ensures-bind, ensure,
  or_raise, fenced, lease_conflict,
}
use allies_foundry.Models.{
  Store, ExecutionStatus, Attempt, AttemptStatus, Lease, LeaseState, RuntimeContext, is_active,
  is_unresolved, profile_allows_stop,
}
use allies_foundry.Approvals.Service.{find_lease, cancel_live_approval_requests}
use allies_foundry.Leases.Rows.{Locked, lock_rows, save_lease_state}
use allies_foundry.Leases.Service.{
  acknowledge_stopped, stop_lease, write_stop, StopReceipt, current_routine, stored_stop, requeues,
  is_cleanup_pending,
}
use allies_foundry.Leases.Locking.{Ends, lock_rows_again}

-- How a stop rewrites the attempt.
abbrev stopped_with : Locked → AttemptStatus → Bool → ℕ → ℕ → String → Attempt → Attempt
stopped_with locked status requeue canonical_digest token_digest reason a = record a {
  status = status;
  stopped_request_digest = some canonical_digest;
  stopped_lease_digest = some token_digest;
  stopped_receipt = some (record {
    state = LeaseState.released;
    requeued = requeue;
    reason = if is_cleanup_pending locked.profile then "profile_deprovisioned" else reason;
  });
}

abbrev stopped_status : Bool → ExecutionStatus
stopped_status requeue = if requeue then ExecutionStatus.queued else ExecutionStatus.failed

write_stop-Ends :
    (locked : Locked) (lease : Lease) (status : AttemptStatus) (requeue : Bool) (digest token : ℕ)
    (reason : String) (now : ℕ) (s : Store)
    → Ends s
        (write_stop locked lease status requeue digest token reason now
          (if is_active lease.state then save_lease_state lease LeaseState.stopping s else s))
        locked.attempt
        (stopped_with locked status requeue digest token reason)
        locked.execution
        (stopped_status requeue)
unfolding write_stop cancel_live_approval_requests
write_stop-Ends locked lease status requeue digest token reason now s =
    elim (Bool-cases (is_active lease.state)) [
      | inl c ↦
          rw c (record { workspaces = refl; profiles = refl; attempts = refl; executions = refl })
      | inr c ↦
          rw c (record { workspaces = refl; profiles = refl; attempts = refl; executions = refl })
    ]

abbrev holds_receipt : Attempt → ℕ → ℕ → Bool
holds_receipt a digest token =
    opt_eq a.stopped_request_digest (some digest) && opt_eq a.stopped_lease_digest (some token)

module _ (record_routine_result : ℕ → Store → Result Store) (context : RuntimeContext)
    (k token digest : ℕ) where
  -- An attempt that holds the receipt answers with it, and nothing is written.
  answer :
      (locked : Locked) (reason : String) (now : ℕ) (s : Store)
      → lock_rows (λ _. true) context k s ≡ ok locked
      → locked.attempt.stopped_request_digest ≡ some digest
      → locked.attempt.stopped_lease_digest ≡ some token
      → acknowledge_stopped record_routine_result context k token digest reason now s
        ≡ ok (s, stored_stop locked.attempt)
  unfolding acknowledge_stopped
  answer locked reason now s e d l = rw (e, d, l) (ground arith)

  abbrev IsReplayed : String → ℕ → Store × StopReceipt → Type 0
  IsReplayed again later done =
      (u : Store)
      → lock_rows (λ _. true) context k u ≡ lock_rows (λ _. true) context k done.0
      → acknowledge_stopped record_routine_result context k token digest again later u
        ≡ ok (u, done.1)

  stop_lease-IsReplayed :
      (locked : Locked) (lease : Lease) (reason again : String) (now later : ℕ) (s : Store)
      → lock_rows (λ _. true) context k s ≡ ok locked
      → Ensures
          (IsReplayed again later)
          (stop_lease record_routine_result locked none lease token digest reason now s)
  unfolding stop_lease stored_stop
  stop_lease-IsReplayed locked lease reason again now later s found = λ u rows.
      answer _ again later u
        (rows
          ∙ lock_rows_again (λ _. true) context k s _ locked
              (stopped_with locked AttemptStatus.unknown (requeues locked.profile locked.attempt s)
                digest token reason)
              _ found (write_stop-Ends locked lease _ _ digest token reason now s) (λ a. refl)
              (λ a. refl) (λ e. refl))
        refl refl

  stopped-IsReplayed :
      (locked : Locked) (reason again : String) (now later : ℕ) (s : Store)
      → ((w : ℕ) → current_routine w k s ≡ none)
      → lock_rows (λ _. true) context k s ≡ ok locked
      → Ensures
          (IsReplayed again later)
          (acknowledge_stopped record_routine_result context k token digest reason now s)
  unfolding acknowledge_stopped
  stopped-IsReplayed locked reason again now later s alone found =
      elim (Bool-cases (is_some locked.attempt.stopped_request_digest)) [
        | inl c ↦
            rw (found, c)
              (elim (Bool-cases (holds_receipt locked.attempt digest token)) [
                | inl d ↦ rw d (λ u rows. rw (rows ∙ found, c, d) refl)
                | inr d ↦ rw d tt
              ])
        | inr c ↦
            rw (found, c, alone locked.workspace.id)
              (Ensures-bind (IsReplayed again later)
                (ensure (profile_allows_stop locked.profile) lease_conflict) _
                λ _.
                  Ensures-bind (IsReplayed again later)
                    (or_raise (find_lease locked.attempt.id s) lease_conflict) _
                    λ lease.
                      Ensures-bind (IsReplayed again later)
                        (ensure (lease.token_digest == token) lease_conflict) _
                        λ _.
                          Ensures-bind (IsReplayed again later)
                            (ensure
                              (lease.machine_generation == locked.workspace.machine_generation)
                              fenced)
                            _
                            λ _.
                              Ensures-bind (IsReplayed again later)
                                (ensure (is_unresolved lease.state) lease_conflict) _
                                λ _.
                                  stop_lease-IsReplayed locked lease reason again now later s found)
      ]

  -- A stop that was acknowledged, of an attempt that is no routine's current one, may be sent
  -- again with the same digests and with any reason: the same receipt answers, and nothing is
  -- written, whatever happened since to the lease, the approvals, the routines and other rows. The
  -- condition is that the rows that the service locks (those of the workspace, the attempt, its
  -- execution and its profile) are found as the stop left them.
  pub replayed_stop :
      (reason again : String) (now later : ℕ) (s t u : Store) (r : StopReceipt)
      → ((w : ℕ) → current_routine w k s ≡ none)
      → acknowledge_stopped record_routine_result context k token digest reason now s ≡ ok (t, r)
      → lock_rows (λ _. true) context k u ≡ lock_rows (λ _. true) context k t
      → acknowledge_stopped record_routine_result context k token digest again later u ≡ ok (u, r)
  unfolding acknowledge_stopped
  replayed_stop reason again now later s t u r alone e same =
      let (locked, found, rest) = >>=-eq-ok (lock_rows (λ _. true) context k s) _ e in
      Ensures-ok (IsReplayed again later) _
        (stopped-IsReplayed locked reason again now later s alone found) e u same
