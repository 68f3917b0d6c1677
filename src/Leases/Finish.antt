-- ===== src/Leases/Finish.antt =====
-- `finish_once` of backend/runtime/services/attempts.py: an attempt completes or fails, once. The
-- digests and the canonical receipt, which `_finish_attempt` computes first, are arguments.
use allies_foundry.Base.{
  ℕ, String, Bool, true, false, ◌&&◌, not, Option, none, some, is_some, ltb, ◌==◌, if◌then◌else◌,
  opt_eq, text_eq, Result, ok, ◌>>=◌, ◌>>◌, ensure, refuse, or_raise, fenced, lease_conflict,
  idempotency_conflict,
}
use allies_foundry.Models.{
  Store, Payload, ExecutionStatus, Attempt, AttemptStatus, Lease, LeaseState, TerminalBody,
  RuntimeContext, is_active, is_ended, profile_allows_runtime_write,
}
use allies_foundry.Approvals.Service.{find_lease, cancel_live_approval_requests}
use allies_foundry.Delivery.Repair.{Wire}
use allies_foundry.Events.Append.{Append, Fresh, append_event_once}
use allies_foundry.Leases.Rows.{
  save_lease_state, update_attempt, save_execution_status, Locked, lock_rows,
}

pub record TerminalReceipt : Type 0 where
  pub attempt_id : ℕ
  pub status : AttemptStatus
  pub receipt_id : ℕ
  pub requeued : Bool
  pub receipt : TerminalBody

-- The event that ends an attempt, as `_terminal_event` has checked it; its type is that of the end.
pub record TerminalEvent : Type 0 where
  pub event_id : ℕ
  pub stream_id : String
  pub sequence : ℕ
  pub payload : Payload

-- What `_finish_attempt` is called with, and what it computes before its transaction.
pub record Finish : Type 0 where
  pub succeeded : Bool
  pub retryable : Bool
  pub request_digest : ℕ
  pub lease_digest : ℕ
  pub canonical : TerminalBody
  pub terminal_event : Option TerminalEvent

-- `_terminal_from_attempt`.
unfoldable pub terminal_from_attempt : Attempt → Result TerminalReceipt
terminal_from_attempt attempt = do
  receipt_id ← or_raise attempt.terminal_receipt_id lease_conflict
  value ← or_raise attempt.terminal_receipt lease_conflict
  ok (record {
    attempt_id = attempt.id;
    status = attempt.status;
    receipt_id = receipt_id;
    requeued = value.retryable;
    receipt = value;
  })

-- The session receipt that a completion with an event needs.
unfoldable pub has_session : Attempt → ℕ → Bool
has_session attempt lease_digest =
    (elim attempt.session_receipt [ none ↦ false | some r ↦ is_some r.session_id ])
    && opt_eq attempt.session_lease_digest (some lease_digest)

unfoldable pub terminal_status : Finish → AttemptStatus
terminal_status finish = if finish.succeeded then AttemptStatus.succeeded else AttemptStatus.failed

unfoldable pub execution_status : Finish → ExecutionStatus
execution_status finish =
    if finish.retryable
    then ExecutionStatus.queued
    else (if finish.succeeded then ExecutionStatus.succeeded else ExecutionStatus.failed)

-- The last writes of `finish_once`; `receipt_id` is the fresh `uuid4()`.
unfoldable pub write_finish : Locked → Lease → Finish → ℕ → ℕ → Store → Store
unfolding terminal_status execution_status
write_finish locked lease finish receipt_id now store = save_lease_state lease LeaseState.released (
    cancel_live_approval_requests locked.attempt.id now (
      save_execution_status locked.execution (execution_status finish) (
        update_attempt locked.attempt.id
          (λ a. record a {
            status = terminal_status finish;
            terminal_request_digest = some finish.request_digest;
            terminal_lease_digest = some finish.lease_digest;
            terminal_receipt = some finish.canonical;
            terminal_receipt_id = some receipt_id;
          })
          store)))

-- The type that `complete_attempt` and `fail_attempt` give the event.
unfoldable pub terminal_type : Finish → String
terminal_type finish = if finish.succeeded then "execution.completed" else "execution.failed"

unfoldable pub terminal_append : RuntimeContext → Locked → Lease → Finish → TerminalEvent → Append
unfolding terminal_type
terminal_append context locked lease finish event = record {
  attempt_id = locked.attempt.id;
  lease_id = lease.id;
  event_id = event.event_id;
  sequence = event.sequence;
  event_type = terminal_type finish;
  payload = event.payload;
  token_digest = finish.lease_digest;
  machine_generation = context.machine_generation;
  stream_id = event.stream_id;
  allow_reserved = true;
}

-- The append of the event, where there is one.
unfoldable pub append_terminal :
    (Store → Wire)
    → Fresh
    → RuntimeContext
    → Locked
    → Lease
    → Finish
    → Option TerminalEvent
    → ℕ
    → Store
    → Result Store
unfolding terminal_append
append_terminal w ids context locked lease finish none now store = ok store
append_terminal w ids context locked lease finish (some event) now store = do
  done ← append_event_once w ids (terminal_append context locked lease finish event) now store
  ok done.0

-- `finish_once`; `ids` are the keys of the event, `receipt_id` that of the receipt.
unfoldable pub finish_attempt :
    (Store → Wire)
    → Fresh
    → RuntimeContext
    → ℕ
    → Finish
    → ℕ
    → ℕ
    → Store
    → Result (Store × TerminalReceipt)
finish_attempt w ids context attempt_id finish receipt_id now store = do
  locked ← lock_rows (λ e. not (text_eq e.source_kind "routine_dispatch")) context attempt_id store
  ensure (profile_allows_runtime_write locked.profile) lease_conflict
  if is_some locked.attempt.terminal_request_digest
      then (do
        ensure
            (opt_eq locked.attempt.terminal_request_digest (some finish.request_digest)
              && opt_eq locked.attempt.terminal_lease_digest (some finish.lease_digest))
            idempotency_conflict
        receipt ← terminal_from_attempt locked.attempt
        ok (store, receipt))
      else (do
        lease ← or_raise (find_lease locked.attempt.id store) lease_conflict
        ensure (lease.token_digest == finish.lease_digest) lease_conflict
        ensure (lease.machine_generation == locked.workspace.machine_generation) fenced
        ensure (is_active lease.state) lease_conflict
        ensure (ltb now lease.expires_at) lease_conflict
        refuse
            (finish.succeeded
              && is_some finish.terminal_event
              && not (has_session locked.attempt finish.lease_digest))
            lease_conflict
        refuse (is_ended locked.attempt.status) lease_conflict
        appended ← append_terminal w ids context locked lease finish finish.terminal_event now store
        ok (
          write_finish locked lease finish receipt_id now appended,
          record {
            attempt_id = locked.attempt.id;
            status = terminal_status finish;
            receipt_id = receipt_id;
            requeued = finish.retryable;
            receipt = finish.canonical;
          },
        ))
