-- ===== src/Leases/FinishReplay.antt =====
-- The end of an attempt may be reported again: the stored receipt answers, and no other does.
use allies_foundry.Base.{
  ℕ, ◌≡◌, refl, ◌∙◌, true, false, ◌&&◌, some, ◌==◌, arith, ok, err, Ensures-ok,
  idempotency_conflict,
}
use allies_foundry.Models.{Store, Lease, RuntimeContext, profile_allows_runtime_write}
use allies_foundry.Delivery.Repair.{Wire}
use allies_foundry.Events.Append.{Fresh}
use allies_foundry.Events.Frame.{IsAppend}
use allies_foundry.Leases.FinishRule.{finish-Ensures}
use allies_foundry.Leases.Rows.{Locked, lock_rows}
use allies_foundry.Leases.Finish.{
  Finish, TerminalReceipt, finish_attempt, write_finish, terminal_from_attempt, terminal_status,
  execution_status,
}
use allies_foundry.Leases.Locking.{lock_rows_again}
use allies_foundry.Leases.Finished.{
  is_turn, finished_with, write_finish-Ends, same_digests-request, same_digests-lease,
  terminal-finished,
}

module _ (w : Store → Wire) (context : RuntimeContext) (k : ℕ) where
  -- After this, wherever the same rows are locked, a report is answered with the receipt if it has
  -- these digests, and refused if it has others; nothing is written.
  record IsSettled (finish : Finish) (t : Store) (r : TerminalReceipt) : Type 0 where
    again :
        (ids : Fresh) (same : Finish) (receipt_id later : ℕ) (u : Store)
        → lock_rows is_turn context k u ≡ lock_rows is_turn context k t
        → same.request_digest ≡ finish.request_digest
        → same.lease_digest ≡ finish.lease_digest
        → finish_attempt w ids context k same receipt_id later u ≡ ok (u, r)
    other :
        (ids : Fresh) (different : Finish) (receipt_id later : ℕ) (u : Store)
        → lock_rows is_turn context k u ≡ lock_rows is_turn context k t
        → (different.request_digest == finish.request_digest
            && different.lease_digest == finish.lease_digest)
          ≡ false
        → finish_attempt w ids context k different receipt_id later u ≡ err idempotency_conflict

  -- An attempt that holds the receipt is settled.
  holds-IsSettled :
      (locked : Locked) (finish : Finish) (t : Store) (r : TerminalReceipt)
      → lock_rows is_turn context k t ≡ ok locked
      → profile_allows_runtime_write locked.profile ≡ true
      → locked.attempt.terminal_request_digest ≡ some finish.request_digest
      → locked.attempt.terminal_lease_digest ≡ some finish.lease_digest
      → terminal_from_attempt locked.attempt ≡ ok r
      → IsSettled finish t r
  unfolding finish_attempt terminal_from_attempt
  holds-IsSettled locked finish t r e writes d l answer = record {
    again = λ ids same receipt_id later u rows p q.
        rw (rows ∙ e, writes, d, l, p, q, answer) (ground arith);
    other = λ ids different receipt_id later u rows p. rw (rows ∙ e, writes, d, l) (ground arith);
  }

  abbrev Settled : Finish → Store × TerminalReceipt → Type 0
  Settled finish done = IsSettled finish done.0 done.1

  write-Settled :
      (locked : Locked) (lease : Lease) (finish : Finish) (receipt_id now : ℕ) (s t : Store)
      → lock_rows is_turn context k s ≡ ok locked
      → profile_allows_runtime_write locked.profile ≡ true
      → IsAppend s t
      → finish.canonical.retryable ≡ finish.retryable
      → IsSettled finish (write_finish locked lease finish receipt_id now t) (record {
        attempt_id = locked.attempt.id;
        status = terminal_status finish;
        receipt_id = receipt_id;
        requeued = finish.retryable;
        receipt = finish.canonical;
      })
  write-Settled locked lease finish receipt_id now s t found writes h body =
      holds-IsSettled _ finish _ _
        (lock_rows_again is_turn context k s _ locked (finished_with finish receipt_id)
          (execution_status finish) found
          (write_finish-Ends locked lease finish receipt_id now s t h) (λ a. refl) (λ a. refl)
          (λ e. refl))
        writes refl refl (terminal-finished locked.attempt finish receipt_id body)

  -- The `retryable` of the body agrees with the end; a replay reads it off the body.
  finished-IsSettled :
      (ids : Fresh) (finish : Finish) (receipt_id now : ℕ) (s t : Store) (r : TerminalReceipt)
      → finish.canonical.retryable ≡ finish.retryable
      → finish_attempt w ids context k finish receipt_id now s ≡ ok (t, r)
      → IsSettled finish t r
  finished-IsSettled ids finish receipt_id now s t r body e =
      Ensures-ok (Settled finish) _
        (finish-Ensures w ids context k finish receipt_id now s (Settled finish)
          (λ locked r found may_write d e.
            holds-IsSettled locked finish s r found may_write
              (same_digests-request locked.attempt finish d)
              (same_digests-lease locked.attempt finish d) e)
          (λ locked lease u found may_write h.
            write-Settled locked lease finish receipt_id now s u found may_write h body))
        e

  -- Once the end of an attempt was reported and accepted, or found recorded, a report with the same
  -- request and lease digests is answered with the same receipt, whatever else it says and whatever
  -- happened since to the lease, the events, the approvals and other rows, and nothing is written.
  -- The conditions are that the rows that the service locks (those of the workspace, the attempt,
  -- its execution and its profile) are found as the first report left them, and that the canonical
  -- body has the value True under `retryable` exactly if the end is retryable.
  pub replayed_finish :
      (ids again_ids : Fresh) (finish same : Finish) (receipt_id fresh now later : ℕ)
      (s t u : Store) (r : TerminalReceipt)
      → finish.canonical.retryable ≡ finish.retryable
      → finish_attempt w ids context k finish receipt_id now s ≡ ok (t, r)
      → lock_rows is_turn context k u ≡ lock_rows is_turn context k t
      → same.request_digest ≡ finish.request_digest
      → same.lease_digest ≡ finish.lease_digest
      → finish_attempt w again_ids context k same fresh later u ≡ ok (u, r)
  replayed_finish ids again_ids finish same receipt_id fresh now later s t u r body e =
      (finished-IsSettled ids finish receipt_id now s t r body e).again again_ids same fresh later u

  -- Once the end of an attempt was reported and accepted, or found recorded, a report with another
  -- request digest or another lease digest is refused as an idempotency conflict. The conditions are
  -- that the rows that the service locks (those of the workspace, the attempt, its execution and its
  -- profile) are found as the first report left them, and that the canonical body has the value True
  -- under `retryable` exactly if the end is retryable.
  pub conflicting_finish :
      (ids again_ids : Fresh) (finish different : Finish) (receipt_id fresh now later : ℕ)
      (s t u : Store) (r : TerminalReceipt)
      → finish.canonical.retryable ≡ finish.retryable
      → finish_attempt w ids context k finish receipt_id now s ≡ ok (t, r)
      → lock_rows is_turn context k u ≡ lock_rows is_turn context k t
      → (different.request_digest == finish.request_digest
          && different.lease_digest == finish.lease_digest)
        ≡ false
      → finish_attempt w again_ids context k different fresh later u ≡ err idempotency_conflict
  conflicting_finish ids again_ids finish different receipt_id fresh now later s t u r body e =
      (finished-IsSettled ids finish receipt_id now s t r body e).other again_ids different fresh
        later u
