-- ===== src/Leases/FinishRule.antt =====
-- A postcondition of `finish_once`, from what it does with a receipt that is there and with one
-- that it writes.
use allies_foundry.Base.{
  ℕ, ◌≡◌, true, ◌&&◌, not, Option, none, some, is_some, ltb, ◌==◌, inl, inr, Bool-cases, ok,
  Ensures, Ensures->>=, Ensures-bind, Ensures-intro, Ensures-ensure, Ensures-or_raise, ensure,
  refuse, fenced, lease_conflict, idempotency_conflict,
}
use allies_foundry.Models.{
  Store, Lease, RuntimeContext, is_active, is_ended, profile_allows_runtime_write,
}
use allies_foundry.Delivery.Repair.{Wire}
use allies_foundry.Approvals.Service.{find_lease}
use allies_foundry.Events.Append.{Fresh, append_event_once}
use allies_foundry.Events.Frame.{IsAppend, IsAppend-refl, append-Appends}
use allies_foundry.Leases.Rows.{Locked, lock_rows}
use allies_foundry.Leases.Finish.{
  Finish, TerminalEvent, TerminalReceipt, finish_attempt, write_finish, append_terminal,
  terminal_append, terminal_from_attempt, terminal_status, has_session,
}
use allies_foundry.Leases.Finished.{is_turn, same_digests}

append_terminal-IsAppend :
    (w : Store → Wire) (ids : Fresh) (context : RuntimeContext) (locked : Locked) (lease : Lease)
    (finish : Finish) (event : Option TerminalEvent) (now : ℕ) (s : Store)
    → Ensures (IsAppend s) (append_terminal w ids context locked lease finish event now s)
unfolding append_terminal
append_terminal-IsAppend w ids context locked lease finish none now s = IsAppend-refl s
append_terminal-IsAppend w ids context locked lease finish (some event) now s =
    let call = terminal_append context locked lease finish event in
    Ensures->>= (λ done. IsAppend s done.0) (IsAppend s) (append_event_once w ids call now s) _
      (append-Appends w ids call now s) λ done h. h

module _ (w : Store → Wire) (ids : Fresh) (context : RuntimeContext) (k : ℕ) (finish : Finish)
    (receipt_id now : ℕ) (s : Store) where
  -- What the receipt says that a first end gives.
  abbrev pub given : Locked → TerminalReceipt
  given locked = record {
    attempt_id = locked.attempt.id;
    status = terminal_status finish;
    receipt_id = receipt_id;
    requeued = finish.retryable;
    receipt = finish.canonical;
  }

  module _ (Q : Store × TerminalReceipt → Type 0)
      (replays : (locked : Locked) (r : TerminalReceipt)
        → lock_rows is_turn context k s ≡ ok locked
        → profile_allows_runtime_write locked.profile ≡ true
        → same_digests locked.attempt finish ≡ true
        → terminal_from_attempt locked.attempt ≡ ok r
        → Q (s, r))
      (writes : (locked : Locked) (lease : Lease) (t : Store)
        → lock_rows is_turn context k s ≡ ok locked
        → profile_allows_runtime_write locked.profile ≡ true
        → IsAppend s t
        → Q (write_finish locked lease finish receipt_id now t, given locked)) where
    pub finish-Ensures : Ensures Q (finish_attempt w ids context k finish receipt_id now s)
    unfolding finish_attempt
    finish-Ensures =
        Ensures->>= (λ locked. lock_rows is_turn context k s ≡ ok locked) Q
          (lock_rows is_turn context k s) _
          (Ensures-intro _ (lock_rows is_turn context k s) (λ a e. e))
          λ locked found.
            Ensures-ensure Q (profile_allows_runtime_write locked.profile) lease_conflict _
              λ may_write. elim (Bool-cases (is_some locked.attempt.terminal_request_digest)) [
                | inl c ↦ rw c (
                    Ensures-ensure Q (same_digests locked.attempt finish) idempotency_conflict _
                      λ d.
                        Ensures->>= (λ r. terminal_from_attempt locked.attempt ≡ ok r) Q
                          (terminal_from_attempt locked.attempt) _
                          (Ensures-intro _ (terminal_from_attempt locked.attempt) (λ r e. e))
                          λ r e. replays locked r found may_write d e)
                | inr c ↦ rw c (
                    Ensures-or_raise Q (find_lease locked.attempt.id s) lease_conflict _
                      λ lease held.
                        Ensures-bind Q
                          (ensure (lease.token_digest == finish.lease_digest) lease_conflict) _
                          λ _.
                            Ensures-bind Q
                              (ensure
                                (lease.machine_generation == locked.workspace.machine_generation)
                                fenced)
                              _
                              λ _.
                                Ensures-bind Q (ensure (is_active lease.state) lease_conflict) _
                                  λ _.
                                    Ensures-bind Q
                                      (ensure (ltb now lease.expires_at) lease_conflict) _
                                      λ _.
                                        Ensures-bind Q
                                          (refuse
                                            (finish.succeeded
                                              && is_some finish.terminal_event
                                              && not
                                                  (has_session locked.attempt finish.lease_digest))
                                            lease_conflict)
                                          _
                                          λ _.
                                            Ensures-bind Q
                                              (refuse (is_ended locked.attempt.status)
                                                lease_conflict)
                                              _
                                              λ _.
                                                Ensures->>= (IsAppend s) Q
                                                  (append_terminal w ids context locked lease finish
                                                    finish.terminal_event now s)
                                                  _
                                                  (append_terminal-IsAppend w ids context locked
                                                    lease finish finish.terminal_event now s)
                                                  λ t h. writes locked lease t found may_write h)
              ]
