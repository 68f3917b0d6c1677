-- ===== src/Leases/Stopping.antt =====
-- A stop moves each lease forward.
use allies_foundry.Base.{
  ℕ, ◌≡◌, refl, String, Bool, true, false, ◌&&◌, Option, none, some, is_some, ◌==◌, if◌then◌else◌,
  opt_eq, inl, inr, Bool-cases, find_first, Result, ensure, Ensures, Ensures->>=, Ensures-bind,
  Ensures-or_raise, fenced, lease_conflict, idempotency_conflict,
}
use allies_foundry.Models.{
  Store, AttemptStatus, Lease, LeaseState, RoutineExecution, RuntimeContext, is_active,
  is_unresolved, profile_allows_stop,
}
use allies_foundry.Approvals.Service.{find_lease, cancel_live_approval_requests}
use allies_foundry.Leases.Rows.{Locked, lock_rows, save_lease_state}
use allies_foundry.Leases.Service.{
  acknowledge_stopped, stop_lease, write_stop, current_routine, requeues,
}
use allies_foundry.Leases.Moves.{Moved, IsExclusive, Moved-refl, Moved-trans}
use allies_foundry.Leases.Moving.{Moves, Moved-resolve, Moved-stopping}

-- The last writes of a stop release the lease.
Moved-write_stop :
    (locked : Locked) (lease : Lease) (status : AttemptStatus) (requeue : Bool) (digest token : ℕ)
    (reason : String) (now : ℕ) (s : Store)
    → Moved s.leases (write_stop locked lease status requeue digest token reason now s).leases
unfolding write_stop cancel_live_approval_requests
Moved-write_stop locked lease status requeue digest token reason now s =
    Moved-resolve lease LeaseState.released s refl

module _ (record_routine_result : ℕ → Store → Result Store)
    (records : (k : ℕ) (s : Store)
      → Ensures (λ t. Moved s.leases t.leases) (record_routine_result k s)) where
  stop_lease-Moves :
      (locked : Locked) (routine : Option RoutineExecution) (lease : Lease) (token digest : ℕ)
      (reason : String) (now : ℕ) (s : Store) (p : Lease → Bool)
      → IsExclusive s.leases
      → find_first p s.leases ≡ some lease
      → Ensures
          (Moves s)
          (stop_lease record_routine_result locked routine lease token digest reason now s)
  unfolding stop_lease
  stop_lease-Moves locked none lease token digest reason now s p e f =
      Moved-trans s.leases _ _ (Moved-stopping p lease s e f) (
        Moved-write_stop locked lease AttemptStatus.unknown
          (requeues locked.profile locked.attempt s) digest token reason now _)
  stop_lease-Moves locked (some r) lease token digest reason now s p e f =
      let stopping =
        if is_active lease.state then save_lease_state lease LeaseState.stopping s else s in
      Ensures->>= (λ t. Moved stopping.leases t.leases) (Moves s)
        (record_routine_result r.id stopping) _ (records r.id stopping)
        λ t h. Moved-trans s.leases _ _ (Moved-stopping p lease s e f) (
          Moved-trans stopping.leases t.leases _ h
            (Moved-write_stop locked lease AttemptStatus.failed false digest token reason now t))

  pub stop-Moves :
      (context : RuntimeContext) (k token digest : ℕ) (reason : String) (now : ℕ) (s : Store)
      → IsExclusive s.leases
      → Ensures
          (Moves s)
          (acknowledge_stopped record_routine_result context k token digest reason now s)
  unfolding acknowledge_stopped
  stop-Moves context k token digest reason now s e =
      Ensures-bind (Moves s) (lock_rows (λ _. true) context k s) _ λ locked.
        elim (Bool-cases (is_some locked.attempt.stopped_request_digest)) [
          | inl c ↦ rw c (
              Ensures-bind (Moves s)
                (ensure
                  (opt_eq locked.attempt.stopped_request_digest (some digest)
                    && opt_eq locked.attempt.stopped_lease_digest (some token))
                  idempotency_conflict)
                _ λ _. Moved-refl s.leases)
          | inr c ↦ rw c (
              Ensures-bind (Moves s) (ensure (profile_allows_stop locked.profile) lease_conflict) _
                λ _.
                  Ensures-or_raise (Moves s) (find_lease locked.attempt.id s) lease_conflict _
                    λ lease f.
                      Ensures-bind (Moves s) (ensure (lease.token_digest == token) lease_conflict) _
                        λ _.
                          Ensures-bind (Moves s)
                            (ensure
                              (lease.machine_generation == locked.workspace.machine_generation)
                              fenced)
                            _
                            λ _.
                              Ensures-bind (Moves s)
                                (ensure (is_unresolved lease.state) lease_conflict) _
                                λ _.
                                  stop_lease-Moves locked (current_routine locked.workspace.id k s)
                                    lease token digest reason now s _ e f)
        ]
