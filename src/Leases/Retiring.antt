-- ===== src/Leases/Retiring.antt =====
-- Fencing, and the mutation of an attempt, move each lease forward.
use allies_foundry.Base.{
  ℕ, refl, Bool, ◌||◌, Option, is_some, List, [], ◌∷◌, ◌==◌, ◌>>=◌, leb, member, inl, inr,
  Bool-cases, find_first, Result, ok, or_raise, refuse, Ensures, Ensures->>=, Ensures-bind,
  validation, does_not_exist,
}
use allies_foundry.Models.{Store, Execution, Attempt, Lease, LeaseState, is_unresolved, is_live}
use allies_foundry.Approvals.Service.{find_workspace, find_execution, cancel_live_approval_requests}
use allies_foundry.Leases.Rows.{find_profile}
use allies_foundry.Leases.Mutation.{
  AttemptUpdates, authorize_attempt_mutation, write_updates, validate_attempt_mutation, authorize,
  validate_authorized_attempt_mutation, is_unchanged,
}
use allies_foundry.Leases.Fence.{
  confirm_machine_stopped_and_fence, fence_profiles, fence_profile, fence_leases, fence_lease,
  retire, check_fence, is_running,
}
use allies_foundry.Leases.Moves.{Moved, Moved-refl, Moved-trans}
use allies_foundry.Leases.Moving.{Moves, Moved-resolve}

retire-Moves :
    (lease : Lease) (attempt : Attempt) (execution : Execution) (checkpointed : Bool) (s : Store)
    → Moved s.leases (retire lease attempt execution checkpointed s).0.leases
unfolding retire
retire-Moves lease attempt execution checkpointed s = elim (Bool-cases (is_live attempt.status)) [
  | inl c ↦ elim (Bool-cases (is_running execution.status)) [
    | inl d ↦ rw (c, d) (Moved-resolve lease LeaseState.fenced s refl)
    | inr d ↦ rw (c, d) (Moved-resolve lease LeaseState.fenced s refl)
  ]
  | inr c ↦ rw c (Moved-resolve lease LeaseState.fenced s refl)
]

pub fence_lease-Moves :
    (ids : List ℕ) (k now : ℕ) (s : Store) → Ensures (Moves s) (fence_lease ids k now s)
unfolding fence_lease cancel_live_approval_requests
fence_lease-Moves ids k now s =
    Ensures-bind (Moves s) (or_raise (find_first (λ l. l.id == k) s.leases) does_not_exist) _
      λ lease. elim (Bool-cases (is_unresolved lease.state)) [
        | inl c ↦ rw c (
            Ensures-bind (Moves s)
              (or_raise (find_first (λ a. a.id == lease.attempt_id) s.attempts) does_not_exist) _
              λ attempt.
                Ensures-bind (Moves s)
                  (or_raise (find_execution attempt.execution_id s) does_not_exist) _
                  λ execution.
                    retire-Moves lease attempt execution
                      (member attempt.id ids || is_some attempt.session_request_digest) s)
        | inr c ↦ rw c (Moved-refl s.leases)
      ]

-- Two transactions that move the table, one after the other.
Moves-then {ℓ κ μ} :
    {A : Type ℓ} {B : Type κ} {C : Type μ} (s : Store) (m : Result (Store × A))
    (next : Store → Result (Store × B)) (join : A → B → C)
    → Ensures (Moves s) m
    → ((t : Store) → Ensures (Moves t) (next t))
    → Ensures (Moves s) (m >>= λ first. next first.0 >>= λ rest. ok (rest.0, join first.1 rest.1))
Moves-then s m next join h k = Ensures->>= (Moves s) (Moves s) m _ h λ first f.
    Ensures->>= (Moves first.0) (Moves s) (next first.0) _ (k first.0)
      λ rest r. Moved-trans s.leases first.0.leases rest.0.leases f r

pub fence_leases-Moves :
    (ids ks : List ℕ) (now : ℕ) (s : Store) → Ensures (Moves s) (fence_leases ids ks now s)
unfolding fence_leases
fence_leases-Moves ids [] now s = Moved-refl s.leases
fence_leases-Moves ids (k ∷ ks) now s =
    Moves-then s (fence_lease ids k now s) (fence_leases ids ks now) _
      (fence_lease-Moves ids k now s) (fence_leases-Moves ids ks now)

pub fence_profile-Moves :
    (source k now : ℕ) (s : Store) → Ensures (Moves s) (fence_profile source k now s)
unfolding fence_profile
fence_profile-Moves source k now s =
    Ensures-bind (Moves s) (or_raise (find_profile k s) does_not_exist) _
      λ _. fence_leases-Moves _ _ now s

pub fence_profiles-Moves :
    (source : ℕ) (ks : List ℕ) (now : ℕ) (s : Store)
    → Ensures (Moves s) (fence_profiles source ks now s)
unfolding fence_profiles
fence_profiles-Moves source [] now s = Moved-refl s.leases
fence_profiles-Moves source (k ∷ ks) now s =
    Moves-then s (fence_profile source k now s) (fence_profiles source ks now) _
      (fence_profile-Moves source k now s) (fence_profiles-Moves source ks now)

pub fence-Moves :
    (workspace_id source target : ℕ) (machine : Option ℕ) (now : ℕ) (s : Store)
    → Ensures (Moves s) (confirm_machine_stopped_and_fence workspace_id source target machine now s)
unfolding confirm_machine_stopped_and_fence
fence-Moves workspace_id source target machine now s =
    Ensures-bind (Moves s) (refuse (leb target source) validation) _ λ _.
      Ensures-bind (Moves s) (or_raise (find_workspace workspace_id s) does_not_exist) _
        λ workspace.
          Ensures-bind (Moves s) (check_fence workspace source target machine) _
            λ _. fence_profiles-Moves source _ now s

-- The mutation of an attempt touches no lease.
pub mutation-Moves :
    (k lease_id token generation : ℕ) (updates : AttemptUpdates) (now : ℕ) (s : Store)
    → Ensures
        (λ t. Moved s.leases t.leases)
        (authorize_attempt_mutation k lease_id token generation updates now s)
unfolding authorize_attempt_mutation write_updates
mutation-Moves k lease_id token generation updates now s =
    Ensures-bind (λ t. Moved s.leases t.leases) (validate_attempt_mutation updates) _
      λ _.
        Ensures-bind (λ t. Moved s.leases t.leases) (authorize k lease_id token generation now s) _
          λ attempt.
            Ensures-bind (λ t. Moved s.leases t.leases)
              (validate_authorized_attempt_mutation attempt updates) _
              λ _. elim (Bool-cases (is_unchanged attempt updates)) [
                | inl c ↦ rw c (Moved-refl s.leases)
                | inr c ↦ rw c (Moved-refl s.leases)
              ]
