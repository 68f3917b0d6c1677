-- ===== src/Leases/Mutation.antt =====
-- `authorize_attempt_mutation` of backend/runtime/services/leases.py, the guarded update of an
-- attempt's `status` and `claimed_at`.
use allies_foundry.Base.{
  ℕ, Bool, true, false, ◌&&◌, Option, none, some, ltb, ◌==◌, if◌then◌else◌, opt_eq, find_first,
  Result, ok, ◌>>=◌, ◌>>◌, ensure, or_raise, validation, conflict, authorization, does_not_exist,
}
use allies_foundry.Models.{
  Store, Workspace, RuntimeProfile, Attempt, AttemptStatus, Lease, is_active,
  profile_allows_runtime_write,
}
use allies_foundry.Approvals.Service.{find_workspace, find_execution}
use allies_foundry.Leases.Rows.{validate_token_digest, find_profile, update_attempt}

-- The equality of two of the statuses.
unfoldable pub same_status : AttemptStatus → AttemptStatus → Bool
same_status AttemptStatus.queued AttemptStatus.queued = true
same_status AttemptStatus.leased AttemptStatus.leased = true
same_status AttemptStatus.running AttemptStatus.running = true
same_status AttemptStatus.approval_waiting AttemptStatus.approval_waiting = true
same_status AttemptStatus.succeeded AttemptStatus.succeeded = true
same_status AttemptStatus.failed AttemptStatus.failed = true
same_status AttemptStatus.cancelled AttemptStatus.cancelled = true
same_status AttemptStatus.unknown AttemptStatus.unknown = true
same_status _ _ = false

-- `next in _ATTEMPT_STATUS_TRANSITIONS.get(current, ())`; APPROVAL_WAITING has no entry.
unfoldable pub status_allows : AttemptStatus → AttemptStatus → Bool
unfolding same_status
status_allows AttemptStatus.queued next = elim next [
  | AttemptStatus.queued ↦ true
  | AttemptStatus.leased ↦ true
  | AttemptStatus.running ↦ true
  | _ ↦ false
]
status_allows AttemptStatus.leased next = elim next [
  | AttemptStatus.leased ↦ true
  | AttemptStatus.running ↦ true
  | _ ↦ false
]
status_allows AttemptStatus.running next = elim next [
  | AttemptStatus.running ↦ true
  | AttemptStatus.succeeded ↦ true
  | AttemptStatus.failed ↦ true
  | AttemptStatus.cancelled ↦ true
  | AttemptStatus.unknown ↦ true
  | _ ↦ false
]
status_allows AttemptStatus.approval_waiting next = false
status_allows AttemptStatus.succeeded next = same_status AttemptStatus.succeeded next
status_allows AttemptStatus.failed next = same_status AttemptStatus.failed next
status_allows AttemptStatus.cancelled next = same_status AttemptStatus.cancelled next
status_allows AttemptStatus.unknown next = same_status AttemptStatus.unknown next

-- `_CLAIMABLE_ATTEMPT_STATUSES`.
unfoldable pub is_claimable : AttemptStatus → Bool
is_claimable AttemptStatus.leased = true
is_claimable AttemptStatus.running = true
is_claimable _ = false

-- The fields that a caller asks for: a status or none, and a `claimed_at`, which may be the null,
-- or none, which is `_UNSET`.
pub record AttemptUpdates : Type 0 where
  pub status : Option AttemptStatus
  pub claimed_at : Option (Option ℕ)

unfoldable pub next_status : AttemptUpdates → Attempt → AttemptStatus
next_status updates a = elim updates.status [ none ↦ a.status | some status ↦ status ]

unfoldable pub next_claimed_at : AttemptUpdates → Attempt → Option ℕ
next_claimed_at updates a = elim updates.claimed_at [ none ↦ a.claimed_at | some c ↦ c ]

-- `_validate_attempt_mutation`.
unfoldable pub validate_attempt_mutation : AttemptUpdates → Result (Unit {0})
validate_attempt_mutation updates = elim updates.status [
  | some status ↦ ok tt
  | none ↦ ensure (elim updates.claimed_at [ none ↦ false | some c ↦ true ]) validation
]

-- The tests on a requested `claimed_at`, by the current one.
unfoldable pub validate_claimed_at : Option ℕ → Option ℕ → AttemptStatus → Result (Unit {0})
unfolding is_claimable
validate_claimed_at (some c) next status = ensure (opt_eq next (some c)) conflict
validate_claimed_at none none status = ok tt
validate_claimed_at none (some c) status = ensure (is_claimable status) conflict

-- `_validate_authorized_attempt_mutation`.
unfoldable pub validate_authorized_attempt_mutation : Attempt → AttemptUpdates → Result (Unit {0})
unfolding status_allows next_status validate_claimed_at
validate_authorized_attempt_mutation a updates = do
  ensure (status_allows a.status (next_status updates a)) conflict
  elim updates.claimed_at [
    | none ↦ ok tt
    | some c ↦ validate_claimed_at a.claimed_at c (next_status updates a)
  ]

-- The rows and the generations agree.
unfoldable pub lease_is_current : Lease → Attempt → RuntimeProfile → Workspace → ℕ → ℕ → Bool
lease_is_current lease attempt profile workspace token_digest machine_generation =
    lease.profile_id == profile.id
    && profile.workspace_id == workspace.id
    && lease.token_digest == token_digest
    && lease.machine_generation == machine_generation
    && attempt.machine_generation == machine_generation
    && workspace.machine_generation == machine_generation
    && is_active lease.state

-- `_authorize_attempt_mutation`.
unfoldable pub authorize : ℕ → ℕ → ℕ → ℕ → ℕ → Store → Result Attempt
authorize attempt_id lease_id token_digest machine_generation now store = do
  validate_token_digest token_digest
  attempt ← or_raise (find_first (λ a. a.id == attempt_id) store.attempts) authorization
  execution ← or_raise (find_execution attempt.execution_id store) does_not_exist
  workspace ← or_raise (find_workspace execution.workspace_id store) does_not_exist
  profile ← or_raise (find_profile execution.profile_id store) does_not_exist
  lease ←
      or_raise (find_first (λ l. l.id == lease_id && l.attempt_id == attempt.id) store.leases)
        authorization
  ensure (lease_is_current lease attempt profile workspace token_digest machine_generation)
      authorization
  ensure (profile_allows_runtime_write profile) authorization
  ensure (ltb now lease.expires_at) authorization
  ok attempt

-- Whether no requested value differs from the stored one.
unfoldable pub is_unchanged : Attempt → AttemptUpdates → Bool
unfolding next_status next_claimed_at same_status
is_unchanged a updates =
    same_status (next_status updates a) a.status && opt_eq (next_claimed_at updates a) a.claimed_at

-- The update; a field that is not asked for, or is as it was, is written as it was.
unfoldable pub write_updates : AttemptUpdates → Attempt → Store → Store
unfolding next_status next_claimed_at
write_updates updates attempt store =
    update_attempt attempt.id
      (λ a. record a {
        status = next_status updates attempt;
        claimed_at = next_claimed_at updates attempt;
      })
      store

-- `authorize_attempt_mutation`. The row that is updated is the locked one, so its count is 1.
unfoldable pub authorize_attempt_mutation :
    ℕ → ℕ → ℕ → ℕ → AttemptUpdates → ℕ → Store → Result Store
authorize_attempt_mutation attempt_id lease_id token_digest machine_generation updates now store =
    do
      validate_attempt_mutation updates
      attempt ← authorize attempt_id lease_id token_digest machine_generation now store
      validate_authorized_attempt_mutation attempt updates
      if is_unchanged attempt updates then ok store else ok (write_updates updates attempt store)
