-- ===== src/Claims/Reconciling.antt =====
-- The reconciliation of expired leases only moves leases forward.
use allies_foundry.Base.{
  ℕ, ◌≡◌, ◌∙◌, refl, sym, subst, Bool, true, false, ◌&&◌, ◌||◌, Option, none, some, List, [], ◌∷◌,
  ◌==◌, arith, All, inl, inr, Bool-cases, if◌then◌else◌, find_first, update_where, take, select,
  Result, ok, Ensures, Ensures-bind, Ensures->>=, Ensures-option, Ensures-map, is_some,
}
use allies_foundry.Models.{
  Store, Workspace, RuntimeProfile, Execution, ExecutionStatus, Attempt, AttemptStatus, Lease,
  LeaseState, RoutineExecution, RoutineLeaseAcquisition, RoutineRunStatus, is_live,
}
use allies_foundry.Delivery.Repair.{Wire}
use allies_foundry.Approvals.Service.{find_execution, find_attempt, cancel_live_approval_requests}
use allies_foundry.Leases.Rows.{update_attempt, save_execution_status}
use allies_foundry.Leases.Service.{is_cleanup_pending, current_routine}
use allies_foundry.Leases.Moves.{LeaseMoves, Moved, Moved-refl, Moved-trans, Moved-update_where}
use allies_foundry.Events.Append.{Fresh}
use allies_foundry.Events.Expiry.{Expiry, append_lease_expired_failure}
use allies_foundry.Events.Frame.{IsAppend, failure-Appends}
use allies_foundry.Claims.Ready.{Settings, require_routine_admission}
use allies_foundry.Claims.Expired.{
  reconcile_expired_leases, reconcile_all, reconcile_stale, reconcile_expired_lease, admit_replay,
  is_replayable, is_retired_for, requeue_expired, fail_expired, close_expired, append_failure,
  record_unfinished, write_failure, retire_acquisition, retire_routine_acquisition, close_lease,
  update_routine, unfinished, has_ended, find_stale, is_stale,
}

-- The states that give a lease up.
abbrev gives_up : LeaseState → Bool
gives_up LeaseState.released = true
gives_up LeaseState.fenced = true
gives_up _ = false

closing-LeaseMoves :
    (state : LeaseState) (l : Lease)
    → gives_up state ≡ true
    → LeaseMoves l (record l { state = state; current_acquisition = none })
closing-LeaseMoves state l h = ground arith

closing_rows :
    (state : LeaseState) (k : ℕ) (xs : List Lease)
    → gives_up state ≡ true
    → All
        (λ x.
          (x.id == k) ≡ true
          → LeaseMoves x (record x { state = state; current_acquisition = none }))
        xs
closing_rows state k [] h = tt
closing_rows state k (x ∷ xs) h = (λ _. closing-LeaseMoves state x h, closing_rows state k xs h)

close_lease-Moved :
    (lease : Lease) (state : LeaseState) (s : Store)
    → gives_up state ≡ true
    → Moved s.leases (close_lease lease state s).leases
close_lease-Moved lease state s h =
    Moved-update_where (λ l. l.id == lease.id)
      (λ l. record l { state = state; current_acquisition = none }) s.leases
      (closing_rows state lease.id s.leases h)

pub retire_acquisition-leases :
    (k now : ℕ) (s : Store) → (retire_acquisition k now s).leases ≡ s.leases
unfolding retire_acquisition
retire_acquisition-leases k now s =
    either (find_first (λ a. a.lease_id == k && a.current) s.acquisitions)
  where
    either :
        (o : Option RoutineLeaseAcquisition)
        → (elim o as (λ _. Store) [
          | none ↦ s
          | some a ↦ record s {
            acquisitions =
                update_where
                  (λ x. x.id == a.id)
                  (λ x. record x { current = false; retired_at = some now })
                  s.acquisitions;
          }
        ]).leases
          ≡ s.leases
    either none = refl
    either (some a) = refl

retire_routine_acquisition-leases :
    (r : Option RoutineExecution) (k now : ℕ) (s : Store)
    → (retire_routine_acquisition r k now s).leases ≡ s.leases
retire_routine_acquisition-leases none k now s = refl
retire_routine_acquisition-leases (some r) k now s = retire_acquisition-leases k now s

pub update_routine-leases :
    (r : Option RoutineExecution) (f : RoutineExecution → RoutineExecution) (s : Store)
    → (update_routine r f s).leases ≡ s.leases
update_routine-leases none f s = refl
update_routine-leases (some r) f s = refl

-- A lease is closed in a table that is as it was.
closed-Moved :
    (lease : Lease) (state : LeaseState) (s u : Store)
    → u.leases ≡ s.leases
    → gives_up state ≡ true
    → Moved s.leases (close_lease lease state u).leases
closed-Moved lease state s u same h =
    subst (λ xs. Moved xs (close_lease lease state u).leases) same
      (close_lease-Moved lease state u h)

requeue_expired-Moved :
    (attempt : Attempt) (execution : Execution) (lease : Lease) (r : Option RoutineExecution)
    (now : ℕ) (s : Store)
    → Moved s.leases (requeue_expired attempt execution lease r now s).leases
unfolding requeue_expired cancel_live_approval_requests
requeue_expired-Moved attempt execution lease r now s =
    let u = save_execution_status execution ExecutionStatus.queued (
      update_attempt attempt.id
        (λ a. record a {
          status = if is_some r then AttemptStatus.queued else AttemptStatus.unknown;
        })
        s) in
    let v = update_routine r (λ r. record r { status = RoutineRunStatus.queued }) u in
    let t = retire_routine_acquisition r lease.id now v in
    closed-Moved lease LeaseState.released s (cancel_live_approval_requests attempt.id now t)
      (retire_routine_acquisition-leases r lease.id now v
        ∙ update_routine-leases r (λ r. record r { status = RoutineRunStatus.queued }) u)
      refl

closing-gives_up :
    (b : Bool) → gives_up (if b then LeaseState.fenced else LeaseState.released) ≡ true
closing-gives_up true = refl
closing-gives_up false = refl

close_expired-Moved :
    (attempt : Attempt) (lease : Lease) (r : Option RoutineExecution) (fences : Bool) (now : ℕ)
    (s : Store)
    → Moved s.leases (close_expired attempt lease r fences now s).leases
unfolding close_expired cancel_live_approval_requests
close_expired-Moved attempt lease r fences now s =
    let u = cancel_live_approval_requests attempt.id now s in
    closed-Moved lease (if fences then LeaseState.fenced else LeaseState.released) s
      (retire_routine_acquisition r lease.id now u)
      (retire_routine_acquisition-leases r lease.id now u) (closing-gives_up fences)

write_failure-leases :
    (attempt : Attempt) (execution : Execution) (r : Option RoutineExecution) (s : Store)
    → (write_failure attempt execution r s).leases ≡ s.leases
unfolding write_failure
write_failure-leases attempt execution r s =
    update_routine-leases (unfinished r) _ _ ∙ either (has_ended execution.status)
  where
    either :
        (b : Bool)
        → (if b
            then update_attempt attempt.id (λ a. record a { status = AttemptStatus.unknown }) s
            else save_execution_status execution ExecutionStatus.failed (
                update_attempt attempt.id
                  (λ a. record a { status = AttemptStatus.unknown })
                  s)).leases
          ≡ s.leases
    either true = refl
    either false = refl

-- What is shown of a service that returns a store.
abbrev pub Forward : Store → Store → Type 0
Forward s t = Moved s.leases t.leases

Forward-eq : (s t : Store) → t.leases ≡ s.leases → Forward s t
Forward-eq s t e = subst (Moved s.leases) (sym e) (Moved-refl s.leases)

Forward-trans : (s t u : Store) → Forward s t → Forward t u → Forward s u
Forward-trans s t u h k = Moved-trans s.leases t.leases u.leases h k

module _ (w : Store → Wire) (x : Expiry) (settings : Settings)
    (record_failure : ℕ → Store → Result Store)
    (records : (k : ℕ) (s : Store) → Ensures (Forward s) (record_failure k s)) where
  append_failure-Forward :
      (ids : Fresh) (profile : RuntimeProfile) (attempt : Attempt) (lease : Lease) (now : ℕ)
      (s : Store)
      → Ensures
          (Forward s)
          (append_failure w x settings record_failure ids profile attempt lease now s)
  unfolding append_failure
  append_failure-Forward ids profile attempt lease now s =
      elim (Bool-cases (is_cleanup_pending profile)) [
        | inl c ↦ rw c (Forward-eq s s refl)
        | inr c ↦ rw c (
            Ensures->>= (λ done. IsAppend s done.0) (Forward s)
              (append_lease_expired_failure w x ids attempt lease now s) _
              (failure-Appends w x ids attempt lease now s) λ done h. Forward-eq s done.0 h.leases)
      ]

  record_unfinished-Forward :
      (r : Option RoutineExecution) (s : Store)
      → Ensures (Forward s) (record_unfinished w x settings record_failure r s)
  unfolding record_unfinished
  record_unfinished-Forward none s = Forward-eq s s refl
  record_unfinished-Forward (some r) s = records r.id s

  fail_expired-Forward :
      (ids : Fresh) (profile : RuntimeProfile) (attempt : Attempt) (execution : Execution)
      (lease : Lease) (r : Option RoutineExecution) (now : ℕ) (s : Store)
      → Ensures
          (Forward s)
          (fail_expired w x settings record_failure ids profile attempt execution lease r now s)
  unfolding fail_expired
  fail_expired-Forward ids profile attempt execution lease r now s =
      elim (Bool-cases (is_live attempt.status)) [
        | inr c ↦ rw c (Forward-eq s s refl)
        | inl c ↦ rw c (
            Ensures->>= (Forward s) (Forward s)
              (append_failure w x settings record_failure ids profile attempt lease now s) _
              (append_failure-Forward ids profile attempt lease now s)
              λ t h.
                Ensures->>= (Forward t) (Forward s)
                  (record_unfinished w x settings record_failure (unfinished r) t) _
                  (record_unfinished-Forward (unfinished r) t)
                  λ u k.
                    let v = write_failure attempt execution r u in
                    Forward-trans s u v (Forward-trans s t u h k)
                      (Forward-eq u v (write_failure-leases attempt execution r u)))
      ]

  reconcile_expired_lease-Forward :
      (ids : Fresh) (workspace : Workspace) (profile : RuntimeProfile) (attempt : Attempt)
      (execution : Execution) (lease : Lease) (r : Option RoutineExecution) (now : ℕ) (s : Store)
      → Ensures (Forward s) (
          reconcile_expired_lease w x settings record_failure ids workspace profile attempt
            execution lease r now s)
  unfolding reconcile_expired_lease
  reconcile_expired_lease-Forward ids workspace profile attempt execution lease r now s =
      Ensures-bind (Forward s)
        (admit_replay r (is_replayable workspace profile attempt execution lease s)
          (is_retired_for workspace profile attempt lease)
          (require_routine_admission settings workspace now))
        _
        λ verdict. elim (Bool-cases verdict.0) [
          | inl c ↦ rw c (requeue_expired-Moved attempt execution lease r now s)
          | inr c ↦ rw c (
              Ensures->>= (Forward s) (Forward s)
                (fail_expired w x settings record_failure ids profile attempt execution lease r now
                  s)
                _ (fail_expired-Forward ids profile attempt execution lease r now s)
                λ t h.
                  let fences = is_cleanup_pending profile || verdict.1 in
                  Forward-trans s t (close_expired attempt lease r fences now t) h
                    (close_expired-Moved attempt lease r fences now t))
        ]

  reconcile_stale-Forward :
      (ids : Fresh) (workspace : Workspace) (stale : Lease) (now : ℕ) (s : Store)
      → Ensures (Forward s) (reconcile_stale w x settings record_failure ids workspace stale now s)
  unfolding reconcile_stale
  reconcile_stale-Forward ids workspace stale now s =
      let stays = Forward-eq s s refl in
      Ensures-option (Forward s) (find_attempt stale.attempt_id workspace.id s) (ok s) _ stays
        λ attempt.
          Ensures-option (Forward s) (find_execution attempt.execution_id s) (ok s) _ stays
            λ execution.
              Ensures-option (Forward s)
                (find_first (λ p. p.id == execution.profile_id && p.workspace_id == workspace.id)
                  s.profiles)
                (ok s) _ stays
                λ profile.
                  Ensures-option (Forward s)
                    (find_stale w x settings record_failure stale.id attempt.id now s) (ok s) _
                    stays
                    λ lease.
                      reconcile_expired_lease-Forward ids workspace profile attempt execution lease
                        (current_routine workspace.id stale.attempt_id s) now s

  reconcile_all-Forward :
      (fresh : ℕ → Fresh) (workspace : Workspace) (ls : List Lease) (now : ℕ) (s : Store)
      → Ensures (Forward s) (reconcile_all w x settings record_failure fresh workspace ls now s)
  unfolding reconcile_all
  reconcile_all-Forward fresh workspace [] now s = Forward-eq s s refl
  reconcile_all-Forward fresh workspace (l ∷ ls) now s =
      Ensures->>= (Forward s) (Forward s)
        (reconcile_stale w x settings record_failure (fresh l.attempt_id) workspace l now s) _
        (reconcile_stale-Forward (fresh l.attempt_id) workspace l now s)
        λ t h.
          Ensures-map (Forward t) (Forward s)
            (reconcile_all w x settings record_failure fresh workspace ls now t)
            (λ u k. Forward-trans s t u h k) (reconcile_all-Forward fresh workspace ls now t)

  pub reconcile-Forward :
      (order : List Lease → List Lease) (fresh : ℕ → Fresh) (workspace : Workspace) (now : ℕ)
      (s : Store)
      → Ensures
          (Forward s)
          (reconcile_expired_leases w x settings record_failure order fresh workspace now s)
  unfolding reconcile_expired_leases
  reconcile-Forward order fresh workspace now s =
      reconcile_all-Forward fresh workspace
        (take 8 (order (select (is_stale w x settings record_failure workspace now s) s.leases)))
        now s
