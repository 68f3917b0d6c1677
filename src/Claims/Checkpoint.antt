-- ===== src/Claims/Checkpoint.antt =====
-- Work that a Machine may have begun is not queued again when its lease runs out.
use allies_foundry.Base.{
  ℕ, ◌≡◌, refl, sym, subst, Bool, true, false, ◌&&◌, ◌||◌, Option, none, some, List, [], ◌∷◌, ◌==◌,
  if◌then◌else◌, All, arith, inl, inr, Bool-cases, find_first, update_where, Result, ok, Ensures,
  Ensures-ok, Ensures-bind, Ensures->>=,
}
use allies_foundry.Models.{
  Store, Workspace, RuntimeProfile, Execution, ExecutionStatus, Attempt, AttemptStatus, Lease,
  RoutineExecution, RoutineRunStatus, RoutineLeaseAcquisition, is_live,
}
use allies_foundry.Delivery.Repair.{Wire}
use allies_foundry.Approvals.Service.{cancel_live_approval_requests}
use allies_foundry.Leases.Rows.{update_attempt, save_execution_status}
use allies_foundry.Leases.Service.{is_cleanup_pending}
use allies_foundry.Events.Append.{Fresh}
use allies_foundry.Events.Expiry.{Expiry}
use allies_foundry.Claims.Ready.{Settings, require_routine_admission}
use allies_foundry.Claims.Expired.{
  reconcile_expired_lease, admit_replay, is_replayable, is_retired_for, fail_expired, close_expired,
  append_failure, record_unfinished, write_failure, retire_acquisition, retire_routine_acquisition,
  update_routine, unfinished, has_ended, has_replay_checkpoint,
}

-- The execution with this key has this status.
abbrev pub Stands : ℕ → ExecutionStatus → Store → Type 0
Stands k status s = All (λ e. (e.id == k) ≡ true → e.status ≡ status) s.executions

saved-Stands :
    (k : ℕ) (status : ExecutionStatus) (xs : List Execution)
    → All
        (λ e. (e.id == k) ≡ true → e.status ≡ status)
        (update_where (λ e. e.id == k) (λ e. record e { status = status }) xs)
unfolding update_where
saved-Stands k status [] = tt
saved-Stands k status (x ∷ xs) = elim (Bool-cases (x.id == k)) [
  | inl c ↦ rw c (λ _. refl, saved-Stands k status xs)
  | inr c ↦ rw c (λ h. ground (arith, c, h), saved-Stands k status xs)
]

retire_acquisition-executions :
    (k now : ℕ) (s : Store) → (retire_acquisition k now s).executions ≡ s.executions
unfolding retire_acquisition
retire_acquisition-executions k now s =
    either (find_first (λ a. a.lease_id == k && a.current) s.acquisitions)
  where
    either :
        (o : Option RoutineLeaseAcquisition)
        → (elim o as (λ _. Store) [
          | none ↦ s
          | some a ↦ record s {
            acquisitions =
                update_where
                  (λ x. x.id == a.id)
                  (λ x. record x { current = false; retired_at = some now })
                  s.acquisitions;
          }
        ]).executions
          ≡ s.executions
    either none = refl
    either (some a) = refl

routine-executions :
    (r : Option RoutineExecution) (k now : ℕ) (s : Store)
    → (retire_routine_acquisition r k now s).executions ≡ s.executions
routine-executions none k now s = refl
routine-executions (some r) k now s = retire_acquisition-executions k now s

update_routine-executions :
    (r : Option RoutineExecution) (f : RoutineExecution → RoutineExecution) (s : Store)
    → (update_routine r f s).executions ≡ s.executions
update_routine-executions none f s = refl
update_routine-executions (some r) f s = refl

Stands-same :
    (k : ℕ) (status : ExecutionStatus) (s t : Store)
    → t.executions ≡ s.executions
    → Stands k status s
    → Stands k status t
Stands-same k status s t e h = subst (All (λ x. (x.id == k) ≡ true → x.status ≡ status)) (sym e) h

write_failure-Stands :
    (attempt : Attempt) (execution : Execution) (r : Option RoutineExecution) (s : Store)
    → has_ended execution.status ≡ false
    → Stands execution.id ExecutionStatus.failed (write_failure attempt execution r s)
unfolding write_failure
write_failure-Stands attempt execution r s unended =
    let unknown = update_attempt attempt.id (λ a. record a { status = AttemptStatus.unknown }) s in
    let u =
      if has_ended execution.status
      then unknown
      else save_execution_status execution ExecutionStatus.failed unknown in
    Stands-same execution.id ExecutionStatus.failed u (write_failure attempt execution r s)
      (update_routine-executions (unfinished r)
        (λ r'. record r' { status = RoutineRunStatus.failed }) u)
      (rw unended (saved-Stands execution.id ExecutionStatus.failed s.executions))

close_expired-Stands :
    (k : ℕ) (status : ExecutionStatus) (attempt : Attempt) (lease : Lease)
    (r : Option RoutineExecution) (fences : Bool) (now : ℕ) (s : Store)
    → Stands k status s
    → Stands k status (close_expired attempt lease r fences now s)
unfolding close_expired cancel_live_approval_requests
close_expired-Stands k status attempt lease r fences now s h =
    Stands-same k status s (close_expired attempt lease r fences now s)
      (routine-executions r lease.id now (cancel_live_approval_requests attempt.id now s)) h

-- A routine never makes an attempt replayable that is not.
admit_replay-false :
    (r : Option RoutineExecution) (retired : Bool) (answer : Result (Unit {0}))
    → Ensures (λ verdict. verdict.0 ≡ false) (admit_replay r false retired answer)
unfolding admit_replay
admit_replay-false none retired answer = refl
admit_replay-false (some r) retired answer = refl

checkpoint_refuses :
    (workspace : Workspace) (profile : RuntimeProfile) (attempt : Attempt) (execution : Execution)
    (lease : Lease) (s : Store)
    → has_replay_checkpoint attempt execution s ≡ true
    → is_replayable workspace profile attempt execution lease s ≡ false
unfolding is_replayable
checkpoint_refuses workspace profile attempt execution lease s h = rw h (ground arith)

module _ (w : Store → Wire) (x : Expiry) (settings : Settings)
    (record_failure : ℕ → Store → Result Store) (ids : Fresh) (workspace : Workspace)
    (profile : RuntimeProfile) (attempt : Attempt) (execution : Execution) (lease : Lease)
    (routine : Option RoutineExecution) (now : ℕ) (s : Store) where
  fail_expired-Stands :
      is_live attempt.status ≡ true
      → has_ended execution.status ≡ false
      → Ensures (Stands execution.id ExecutionStatus.failed) (
          fail_expired w x settings record_failure ids profile attempt execution lease routine now
            s)
  unfolding fail_expired
  fail_expired-Stands live unended = rw live (
      Ensures-bind (Stands execution.id ExecutionStatus.failed)
        (append_failure w x settings record_failure ids profile attempt lease now s) _
        λ t.
          Ensures-bind (Stands execution.id ExecutionStatus.failed)
            (record_unfinished w x settings record_failure (unfinished routine) t) _
            λ u. write_failure-Stands attempt execution routine u unended)

  checkpointed-Ensures :
      is_live attempt.status ≡ true
      → has_ended execution.status ≡ false
      → has_replay_checkpoint attempt execution s ≡ true
      → Ensures (Stands execution.id ExecutionStatus.failed) (
          reconcile_expired_lease w x settings record_failure ids workspace profile attempt
            execution lease routine now s)
  unfolding reconcile_expired_lease
  checkpointed-Ensures live unended checkpoint =
      rw (checkpoint_refuses workspace profile attempt execution lease s checkpoint) (
        Ensures->>= (λ verdict. verdict.0 ≡ false) (Stands execution.id ExecutionStatus.failed)
          (admit_replay routine false (is_retired_for workspace profile attempt lease)
            (require_routine_admission settings workspace now))
          _
          (admit_replay-false routine (is_retired_for workspace profile attempt lease)
            (require_routine_admission settings workspace now))
          λ verdict c. rw c (
            Ensures->>= (Stands execution.id ExecutionStatus.failed)
              (Stands execution.id ExecutionStatus.failed)
              (fail_expired w x settings record_failure ids profile attempt execution lease routine
                now s)
              _ (fail_expired-Stands live unended)
              λ t h.
                close_expired-Stands execution.id ExecutionStatus.failed attempt lease routine
                  (is_cleanup_pending profile || verdict.1) now t h))

  -- When the lease of a live attempt has run out and the attempt has a checkpoint, a dispatched event,
  -- a session, or a stop or end of its routine's acquisition, then closing the lease leaves the
  -- execution failed, unless it had ended: the work is not handed out again.
  pub checkpointed_fails :
      (t : Store)
      → is_live attempt.status ≡ true
      → has_ended execution.status ≡ false
      → has_replay_checkpoint attempt execution s ≡ true
      → reconcile_expired_lease w x settings record_failure ids workspace profile attempt execution
          lease routine now s
        ≡ ok t
      → Stands execution.id ExecutionStatus.failed t
  checkpointed_fails t live unended checkpoint e =
      Ensures-ok (Stands execution.id ExecutionStatus.failed) _
        (checkpointed-Ensures live unended checkpoint) e
