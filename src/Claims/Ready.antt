-- ===== src/Claims/Ready.antt =====
-- What a claim asks of a workspace and of a profile: backend/runtime/services/runtime_readiness.py,
-- `profile_is_claim_ready` of profiles.py and `_require_routine_admission` of routines.py.
use allies_foundry.Base.{
  ℕ, ◌+◌, ◌^◌, ◌-◌, Bool, true, false, ◌&&◌, not, Option, none, some, is_some, ltb, leb, ◌==◌,
  opt_eq, Result, ok, ◌>>=◌, ◌>>◌, ensure, refuse, or_raise, conflict, fenced, not_ready,
}
use allies_foundry.Models.{
  Workspace, WorkspaceProvisioningPhase, RuntimeProfile, RuntimeContext,
  profile_allows_runtime_write,
}

-- What the backend is configured with: for how long a sign of life is fresh, and the digest of the
-- desired images, which is none where it is not set or not valid. The token of a claim and its digest
-- are `_claim_token`, which is keyed by a secret, and `_digest`.
pub record Settings : Type 0 where
  pub freshness : ℕ
  pub release : Option ℕ
  pub claim_token : ℕ → ℕ → ℕ → ℕ
  pub digest : ℕ → ℕ

-- `phase in IN_FLIGHT_PROVISIONING_PHASES`.
unfoldable pub is_in_flight : WorkspaceProvisioningPhase → Bool
is_in_flight WorkspaceProvisioningPhase.idle = false
is_in_flight WorkspaceProvisioningPhase.failed = false
is_in_flight _ = true

-- The first tests of `is_runtime_ready`, which a claim makes too.
unfoldable pub has_machine : Workspace → Bool
unfolding is_in_flight
has_machine w =
    not (is_in_flight w.provisioning_phase)
    && ltb 0 w.machine_generation
    && is_some w.fly_app_ref
    && is_some w.volume_ref
    && is_some w.machine_ref

-- Whether the Machine has shown a sign of life within the last `freshness`.
unfoldable pub is_fresh : ℕ → Option ℕ → ℕ → Bool
is_fresh freshness none now = false
is_fresh freshness (some seen) now = leb now (seen + freshness)

unfoldable pub is_runtime_ready : ℕ → Workspace → ℕ → Bool
unfolding has_machine is_fresh
is_runtime_ready freshness w now =
    has_machine w
    && opt_eq w.ready_generation (some w.machine_generation)
    && opt_eq w.ready_start_epoch (some w.runtime_start_epoch)
    && is_some w.ready_boot_id
    && is_fresh freshness w.runtime_last_seen_at now

unfoldable pub require_current_runtime_ready_locked :
    Settings → Workspace → RuntimeContext → ℕ → Result (Unit {0})
unfolding is_runtime_ready
require_current_runtime_ready_locked settings w context now = do
  ensure (w.id == context.workspace_id) fenced
  ensure (w.machine_generation == context.machine_generation) fenced
  ensure (is_runtime_ready settings.freshness w now) not_ready

-- `advance_runtime_start_epoch_locked`: the receipts of an earlier start no longer count.
unfoldable pub advance_runtime_start_epoch_locked : Workspace → Result Workspace
advance_runtime_start_epoch_locked w = do
  refuse (leb (2 ^ 63 - 1) w.runtime_start_epoch) conflict
  ok (record w {
    runtime_start_epoch = w.runtime_start_epoch + 1;
    ready_generation = none;
    ready_start_epoch = none;
    ready_boot_id = none;
    ready_at = none;
    runtime_last_seen_at = none;
  })

unfoldable pub profile_is_claim_ready : RuntimeProfile → ℕ → Bool
profile_is_claim_ready p generation =
    profile_allows_runtime_write p
    && p.hermes_profile_key_version == 1
    && opt_eq p.materialized_generation (some generation)

unfoldable pub require_routine_admission : Settings → Workspace → ℕ → Result (Unit {0})
unfolding is_runtime_ready
require_routine_admission settings w now = do
  ensure (elim w.routine_admission [ none ↦ true | some on ↦ on ]) not_ready
  release ← or_raise settings.release not_ready
  ensure (is_runtime_ready settings.freshness w now) not_ready
  ensure (opt_eq w.release_digest (some release)) fenced
