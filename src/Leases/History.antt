-- ===== src/Leases/History.antt =====
-- The lease table through any history of the services of leases.py, attempts.py and events.py.
use allies_foundry.Base.{
  ℕ, ◌≡◌, subst, String, true, ◌&&◌, Option, none, some, [], ◌∷◌, ◌==◌, inl, inr, Bool-cases,
  find_first, Result, ok, or_raise, ensure, Ensures, Ensures-ok, Ensures-bind, validation,
  authorization, does_not_exist,
}
use allies_foundry.Models.{
  Store, Lease, ExecutionEvent, LeaseState, RuntimeContext, profile_allows_runtime_write,
}
use allies_foundry.Approvals.Service.{find_workspace, find_execution}
use allies_foundry.Leases.Rows.{find_profile, validate_token_digest}
use allies_foundry.Leases.Mutation.{AttemptUpdates, authorize_attempt_mutation}
use allies_foundry.Leases.Service.{
  create_lease_from_digest, renew_lease, LeaseReceipt, acknowledge_stopped, StopReceipt, main_scope,
  clashes_any,
}
use allies_foundry.Leases.Finish.{Finish, TerminalReceipt, finish_attempt}
use allies_foundry.Delivery.Repair.{Wire}
use allies_foundry.Events.Append.{Append, Fresh, append_event_once}
use allies_foundry.Events.Frame.{IsAppend, append-Appends}
use allies_foundry.Leases.Fence.{Counts, confirm_machine_stopped_and_fence}
use allies_foundry.Leases.Moves.{
  Moved, Moved-refl, Evolved, IsExclusive, Moved-Evolved, Evolved_refl, Evolved_trans,
  Evolved-append, Moved-IsExclusive, append-IsExclusive,
}
use allies_foundry.Leases.Moving.{Moves, renew-Moves}
use allies_foundry.Leases.Stopping.{stop-Moves}
use allies_foundry.Leases.Finishing.{finish-Moves}
use allies_foundry.Leases.Retiring.{fence-Moves, mutation-Moves}

abbrev Grows : Store → Store × Lease → Type 0
Grows s done = Evolved s.leases done.0.leases × (IsExclusive s.leases → IsExclusive done.0.leases)

create-Grows :
    (id k token expires generation : ℕ) (profile_id : Option ℕ) (state : LeaseState) (s : Store)
    → Ensures (Grows s) (create_lease_from_digest id k token expires generation profile_id state s)
unfolding create_lease_from_digest
create-Grows id k token expires generation profile_id state s =
    Ensures-bind (Grows s) (validate_token_digest token) _ λ _.
      Ensures-bind (Grows s) (or_raise (find_first (λ a. a.id == k) s.attempts) validation) _
        λ attempt.
          Ensures-bind (Grows s) (or_raise (find_execution attempt.execution_id s) does_not_exist) _
            λ execution.
              Ensures-bind (Grows s)
                (or_raise (find_workspace execution.workspace_id s) does_not_exist) _
                λ workspace.
                  Ensures-bind (Grows s)
                    (or_raise (find_profile execution.profile_id s) does_not_exist) _
                    λ profile.
                      Ensures-bind (Grows s)
                        (ensure (elim profile_id [ none ↦ true | some j ↦ profile.id == j ])
                          validation)
                        _
                        λ _.
                          Ensures-bind (Grows s)
                            (ensure
                              (attempt.machine_generation == generation
                                && workspace.machine_generation == generation)
                              authorization)
                            _
                            λ _.
                              Ensures-bind (Grows s)
                                (ensure (profile_allows_runtime_write profile) authorization) _
                                λ _.
                                  let lease : Lease = record {
                                    id = id;
                                    attempt_id = attempt.id;
                                    profile_id = profile.id;
                                    scope_key = main_scope;
                                    token_digest = token;
                                    claim_id = none;
                                    expires_at = expires;
                                    machine_generation = generation;
                                    state = state;
                                    current_acquisition = none;
                                  } in
                                  elim (Bool-cases (clashes_any lease s.leases)) [
                                    | inl c ↦ rw c tt
                                    | inr c ↦ rw c (
                                      Evolved-append s.leases (lease ∷ []),
                                      append-IsExclusive lease s.leases c,
                                    )
                                  ]

module _ (w : Store → Wire) (record_routine_result : ℕ → Store → Result Store) where
  -- A committed transaction of leases.py or attempts.py.
  pub data Step (s t : Store) : Type 0 where
    created :
        (id k token expires generation : ℕ) (profile_id : Option ℕ) (state : LeaseState)
        (lease : Lease)
        → create_lease_from_digest id k token expires generation profile_id state s ≡ ok (t, lease)
        → Step s t
    renewed :
        (context : RuntimeContext) (k token now : ℕ) (r : LeaseReceipt)
        → renew_lease context k token now s ≡ ok (t, r)
        → Step s t
    stopped :
        (context : RuntimeContext) (k token digest : ℕ) (reason : String) (now : ℕ)
        (r : StopReceipt)
        → acknowledge_stopped record_routine_result context k token digest reason now s ≡ ok (t, r)
        → Step s t
    finished :
        (ids : Fresh) (context : RuntimeContext) (k : ℕ) (finish : Finish) (receipt_id now : ℕ)
        (r : TerminalReceipt)
        → finish_attempt w ids context k finish receipt_id now s ≡ ok (t, r)
        → Step s t
    appended :
        (ids : Fresh) (call : Append) (now : ℕ) (e : ExecutionEvent)
        → append_event_once w ids call now s ≡ ok (t, e)
        → Step s t
    fenced :
        (workspace_id source target : ℕ) (machine : Option ℕ) (now : ℕ) (r : Counts)
        → confirm_machine_stopped_and_fence workspace_id source target machine now s ≡ ok (t, r)
        → Step s t
    mutated :
        (k lease_id token generation : ℕ) (updates : AttemptUpdates) (now : ℕ)
        → authorize_attempt_mutation k lease_id token generation updates now s ≡ ok t
        → Step s t

  pub data History (start : Store) : Store → Type 0 where
    here : History start start
    next : {s t : Store} → History start s → Step s t → History start t

  module _
      (records : (k : ℕ) (s : Store)
        → Ensures (λ t. Moved s.leases t.leases) (record_routine_result k s)) where
    moved :
        (s t : Store)
        → Moved s.leases t.leases
        → IsExclusive s.leases
        → Evolved s.leases t.leases × IsExclusive t.leases
    moved s t h e = (Moved-Evolved s.leases t.leases h, Moved-IsExclusive s.leases t.leases h e)

    step :
        (s t : Store)
        → Step s t
        → IsExclusive s.leases
        → Evolved s.leases t.leases × IsExclusive t.leases
    step s t (created id k token expires generation profile_id state lease e) h =
        let grows =
          Ensures-ok (Grows s) _ (create-Grows id k token expires generation profile_id state s)
            e in
        (grows.0, grows.1 h)
    step s t (renewed context k token now r e) h =
        moved s t (Ensures-ok (Moves s) _ (renew-Moves context k token now s) e) h
    step s t (stopped context k token digest reason now r e) h =
        moved s t
          (Ensures-ok (Moves s) _
            (stop-Moves record_routine_result records context k token digest reason now s h) e)
          h
    step s t (finished ids context k finish receipt_id now r e) h =
        moved s t (Ensures-ok (Moves s) _ (finish-Moves w ids context k finish receipt_id now s) e)
          h
    step s t (appended ids call now event e) h =
        moved s t
          (subst (λ xs. Moved xs t.leases)
            (Ensures-ok (λ done. IsAppend s done.0) _ (append-Appends w ids call now s) e).leases
            (Moved-refl t.leases))
          h
    step s t (fenced workspace_id source target machine now r e) h =
        moved s t (Ensures-ok (Moves s) _ (fence-Moves workspace_id source target machine now s) e)
          h
    step s t (mutated k lease_id token generation updates now e) h =
        moved s t
          (Ensures-ok (λ u. Moved s.leases u.leases) _
            (mutation-Moves k lease_id token generation updates now s) e)
          h

    history :
        (s t : Store)
        → History s t
        → IsExclusive s.leases
        → Evolved s.leases t.leases × IsExclusive t.leases
    history s t here e = (Evolved_refl s.leases, e)
    history s t (next {s = u} l st) e =
        let before = history s u l e in
        let after = step u t st before.1 in
        (Evolved_trans s.leases u.leases t.leases before.0 after.0, after.1)

    -- Through any history of the services of leases.py, attempts.py and events.py, from a table without
    -- clashes, every lease stays in the table with its key, attempt, profile, scope, token and
    -- generation, and its state moves forward only: a stopping lease is never active again, and a
    -- released or fenced one never holds its scope again. It is assumed that the result of a
    -- routine only moves leases forward.
    pub History-Evolved :
        (s t : Store) → History s t → IsExclusive s.leases → Evolved s.leases t.leases
    History-Evolved s t l e = (history s t l e).0
