-- ===== src/Sessions/Service.antt =====
-- `update_session_binding` and `bind_routine_session` of backend/runtime/services/sessions.py, within
-- their retry; the digests are computed before, and are arguments.
use allies_foundry.Base.{
  ℕ, String, false, ◌&&◌, not, Option, none, some, is_some, ltb, ◌==◌, if◌then◌else◌, opt_eq,
  text_eq, find_first, update_where, Result, ok, ◌>>=◌, ◌>>◌, ensure, refuse, or_raise, fenced,
  lease_conflict, idempotency_conflict, does_not_exist,
}
use allies_foundry.Models.{
  Store, Attempt, Lease, RuntimeProfile, RoutineExecution, RoutineLeaseAcquisition,
  ConversationBinding, RuntimeContext, is_active, profile_allows_runtime_write,
}
use allies_foundry.Approvals.Service.{find_workspace, find_execution, find_lease, in_workspace}
use allies_foundry.Leases.Rows.{update_attempt, Locked, lock_rows}
use allies_foundry.Leases.Service.{current_routine}
use allies_foundry.Events.Append.{validate_nonempty}
use allies_foundry.Claims.Candidate.{routine_scope_key}
use allies_foundry.Sessions.Bindings.{
  check_optional, find_binding, is_session, same_session, new_binding, create_binding, save_session,
}

pub record SessionUpdate : Type 0 where
  pub cloud_conversation_ref : String
  pub expected_session_id : Option String
  pub effective_session_id : String
  pub request_digest : ℕ
  pub token_digest : ℕ

unfoldable pub check_update : SessionUpdate → Result (Unit {0})
check_update call = do
  validate_nonempty call.cloud_conversation_ref 255
  validate_nonempty call.effective_session_id 255
  check_optional call.expected_session_id

-- `_store_session_receipt`.
unfoldable pub store_session_receipt : Attempt → SessionUpdate → Store → Store
store_session_receipt attempt call store =
    update_attempt attempt.id
      (λ a. record a {
        session_request_digest = some call.request_digest;
        session_lease_digest = some call.token_digest;
        session_receipt = some (record { session_id = some call.effective_session_id });
      })
      store

-- The receipt that was stored by the same request, on the binding as it is.
unfoldable pub replay_session :
    Attempt → RuntimeProfile → SessionUpdate → Store → Result (Store × ConversationBinding)
replay_session attempt profile call store = do
  ensure
      (opt_eq attempt.session_request_digest (some call.request_digest)
        && opt_eq attempt.session_lease_digest (some call.token_digest))
      idempotency_conflict
  b ← or_raise (find_binding profile.id store) lease_conflict
  session ←
      or_raise (elim attempt.session_receipt [ none ↦ none | some r ↦ r.session_id ]) lease_conflict
  ok (store, new_binding profile.id b.cloud_conversation_ref session)

-- The binding that is there, and the receipt.
unfoldable pub rebind :
    Attempt → ConversationBinding → SessionUpdate → Store → Result (Store × ConversationBinding)
unfolding store_session_receipt save_session
rebind attempt b call store = do
  ensure (text_eq b.cloud_conversation_ref call.cloud_conversation_ref) lease_conflict
  if is_session b.hermes_session_id call.effective_session_id
      then ok (store_session_receipt attempt call store, b)
      else (do
        ensure (same_session call.expected_session_id b.hermes_session_id) lease_conflict
        let saved = save_session b call.effective_session_id store
        ok (store_session_receipt attempt call saved.0, saved.1))

-- The first binding of a profile, and the receipt.
unfoldable pub bind_first :
    Attempt → RuntimeProfile → SessionUpdate → Store → Result (Store × ConversationBinding)
unfolding store_session_receipt create_binding
bind_first attempt profile call store = do
  refuse (is_some call.expected_session_id) lease_conflict
  created ←
      create_binding lease_conflict
        (new_binding profile.id call.cloud_conversation_ref call.effective_session_id) store
  ok (store_session_receipt attempt call created.0, created.1)

-- The test of the lease, and what follows it.
unfoldable pub bind_session :
    Locked → Lease → SessionUpdate → ℕ → Store → Result (Store × ConversationBinding)
unfolding rebind bind_first
bind_session locked lease call now store = do
  ensure (lease.machine_generation == locked.workspace.machine_generation) fenced
  ensure (is_active lease.state) lease_conflict
  ensure (ltb now lease.expires_at) lease_conflict
  elim (find_binding locked.profile.id store) [
    | none ↦ bind_first locked.attempt locked.profile call store
    | some b ↦ rebind locked.attempt b call store
  ]

-- `update_once` of `update_session_binding`, with the checks before it.
unfoldable pub update_session_binding :
    RuntimeContext → ℕ → SessionUpdate → ℕ → Store → Result (Store × ConversationBinding)
unfolding check_update replay_session bind_session
update_session_binding context attempt_id call now store = do
  check_update call
  locked ← lock_rows (λ e. not (text_eq e.source_kind "routine_dispatch")) context attempt_id store
  ensure (profile_allows_runtime_write locked.profile) lease_conflict
  lease ← or_raise (find_lease locked.attempt.id store) lease_conflict
  ensure (lease.token_digest == call.token_digest) lease_conflict
  if is_some locked.attempt.session_request_digest
      then replay_session locked.attempt locked.profile call store
      else bind_session locked lease call now store

-- The answer to a routine that has bound its session.
unfoldable pub replay_routine : RoutineLeaseAcquisition → ℕ → Store → Result (Store × String)
replay_routine acquisition request_digest store = do
  ensure
      (opt_eq acquisition.session_request_digest (some request_digest)
        && is_some acquisition.session_receipt)
      idempotency_conflict
  session ← or_raise acquisition.session_receipt idempotency_conflict
  ok (store, session)

-- The session of a routine is bound once.
unfoldable pub bind_routine :
    RoutineExecution
    → RoutineLeaseAcquisition
    → Option String
    → String
    → ℕ
    → Store
    → Result (Store × String)
bind_routine routine acquisition expected session request_digest store = do
  elim routine.hermes_session_id [
    | none ↦ refuse (is_some expected) lease_conflict
    | some s ↦ (do
      ensure (same_session expected (some s)) lease_conflict
      ensure (text_eq s session) lease_conflict)
  ]
  ok (
    record store {
      routines =
          update_where (λ r. r.id == routine.id)
            (λ r. record r { hermes_session_id = some session }) store.routines;
      acquisitions =
          update_where (λ a. a.id == acquisition.id)
            (λ a. record a {
              session_request_digest = some request_digest;
              session_receipt = some session;
            })
            store.acquisitions;
    },
    session,
  )

-- `bind_once` of `bind_routine_session`, with the checks before it.
unfoldable pub bind_routine_session :
    RuntimeContext → ℕ → ℕ → Option String → String → ℕ → ℕ → Store → Result (Store × String)
unfolding replay_routine bind_routine
bind_routine_session context attempt_id token_digest expected session request_digest now store = do
  validate_nonempty session 255
  check_optional expected
  workspace ← or_raise (find_workspace context.workspace_id store) does_not_exist
  ensure (workspace.machine_generation == context.machine_generation) fenced
  routine ← or_raise (current_routine workspace.id attempt_id store) lease_conflict
  attempt ←
      or_raise
        (find_first
          (λ a.
            a.id == attempt_id
            && a.execution_id == routine.execution_id
            && in_workspace workspace.id (find_execution a.execution_id store)
            && (elim (find_execution a.execution_id store) [
              | none ↦ false
              | some e ↦ text_eq e.source_kind "routine_dispatch"
            ]))
          store.attempts)
        lease_conflict
  lease ← or_raise (find_lease attempt.id store) lease_conflict
  ensure (lease.token_digest == token_digest) lease_conflict
  ensure (lease.scope_key == routine_scope_key routine.routine_id) lease_conflict
  ensure (is_active lease.state && ltb now lease.expires_at) lease_conflict
  acquisition ←
      or_raise
        (find_first (λ a. a.lease_id == lease.id && a.current && a.token_digest == token_digest)
          store.acquisitions)
        lease_conflict
  if is_some acquisition.session_request_digest
      then replay_routine acquisition request_digest store
      else bind_routine routine acquisition expected session request_digest store
