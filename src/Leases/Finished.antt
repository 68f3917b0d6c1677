-- ===== src/Leases/Finished.antt =====
-- The attempt that its end leaves behind: backend/runtime/services/attempts.py.
use allies_foundry.Base.{ℕ, ◌≡◌, refl, ap, true, ◌&&◌, not, some, opt_eq, text_eq, Bool, arith, ok}
use allies_foundry.Models.{Store, Execution, Attempt, Lease}
use allies_foundry.Approvals.Service.{cancel_live_approval_requests}
use allies_foundry.Events.Frame.{IsAppend}
use allies_foundry.Leases.Rows.{Locked}
use allies_foundry.Leases.Finish.{
  Finish, write_finish, terminal_from_attempt, terminal_status, execution_status,
}
use allies_foundry.Leases.Locking.{Ends}

abbrev pub is_turn : Execution → Bool
is_turn e = not (text_eq e.source_kind "routine_dispatch")

abbrev pub finished_with : Finish → ℕ → Attempt → Attempt
finished_with finish receipt_id a = record a {
  status = terminal_status finish;
  terminal_request_digest = some finish.request_digest;
  terminal_lease_digest = some finish.lease_digest;
  terminal_receipt = some finish.canonical;
  terminal_receipt_id = some receipt_id;
}

pub write_finish-Ends :
    (locked : Locked) (lease : Lease) (finish : Finish) (receipt_id now : ℕ) (s t : Store)
    → IsAppend s t
    → Ends s
        (write_finish locked lease finish receipt_id now t)
        locked.attempt
        (finished_with finish receipt_id)
        locked.execution
        (execution_status finish)
unfolding write_finish cancel_live_approval_requests
write_finish-Ends locked lease finish receipt_id now s t h = record {
  workspaces = h.workspaces;
  profiles = h.profiles;
  attempts = rw h.attempts refl;
  executions = rw h.executions refl;
}

abbrev pub same_digests : Attempt → Finish → Bool
same_digests a finish =
    opt_eq a.terminal_request_digest (some finish.request_digest)
    && opt_eq a.terminal_lease_digest (some finish.lease_digest)

pub same_digests-request :
    (a : Attempt) (finish : Finish)
    → same_digests a finish ≡ true
    → a.terminal_request_digest ≡ some finish.request_digest
same_digests-request a finish h = ground arith

pub same_digests-lease :
    (a : Attempt) (finish : Finish)
    → same_digests a finish ≡ true
    → a.terminal_lease_digest ≡ some finish.lease_digest
same_digests-lease a finish h = ground arith

-- The receipt read off the attempt is the one that the end of the attempt gave.
pub terminal-finished :
    (a : Attempt) (finish : Finish) (receipt_id : ℕ)
    → finish.canonical.retryable ≡ finish.retryable
    → terminal_from_attempt (finished_with finish receipt_id a)
      ≡ ok (record {
        attempt_id = a.id;
        status = terminal_status finish;
        receipt_id = receipt_id;
        requeued = finish.retryable;
        receipt = finish.canonical;
      })
unfolding terminal_from_attempt
terminal-finished a finish receipt_id body =
    ap
      (λ (b : Bool). ok (record {
        attempt_id = a.id;
        status = terminal_status finish;
        receipt_id = receipt_id;
        requeued = b;
        receipt = finish.canonical;
      }))
      body
