-- ===== src/Sessions/Recorded.antt =====
-- What a session that was bound leaves behind.
use allies_foundry.Base.{
  ℕ, ◌≡◌, refl, ◌∙◌, String, true, ◌&&◌, Option, none, some, is_some, ltb, List, [], ◌∷◌, ◌++◌,
  ◌==◌, opt_eq, text_eq, arith, inl, inr, Bool-cases, find_first, find_first-rewritten,
  update_where, ok, ◌>>=◌, ensure, refuse, or_raise, fenced, lease_conflict, idempotency_conflict,
  Ensures, Ensures-bind, Ensures->>=, Ensures-ensure, Ensures-or_raise,
}
use allies_foundry.Models.{
  Store, Lease, ConversationBinding, SessionReceipt, RuntimeContext, is_active,
  profile_allows_runtime_write,
}
use allies_foundry.Approvals.Service.{find_execution, find_lease, in_workspace}
use allies_foundry.Leases.Rows.{update_attempt, Locked, lock_rows}
use allies_foundry.Leases.Locking.{lock_rows-IsLocked, IsLocked-lock_rows}
use allies_foundry.Leases.Finished.{is_turn}
use allies_foundry.Sessions.Bindings.{
  find_binding, is_session, same_session, new_binding, create_binding, save_session,
  binding_clashes,
}
use allies_foundry.Sessions.Service.{
  SessionUpdate, check_update, store_session_receipt, replay_session, rebind, bind_first,
  bind_session,
}
use allies_foundry.Sessions.Found.{
  SameRows, with_receipt, first_digest, second_digest, bound_to, rebound,
}

module _ (context : RuntimeContext) (k : ℕ) (call : SessionUpdate) where
  -- What a bound session leaves behind.
  pub record Recorded (t : Store) (b : ConversationBinding) : Type 0 where
    pub locked : Locked
    pub lease : Lease
    pub session : String
    pub receipt : SessionReceipt
    pub conversation : String
    pub checked : check_update call ≡ ok tt
    pub rows : lock_rows is_turn context k t ≡ ok locked
    pub may_write : profile_allows_runtime_write locked.profile ≡ true
    pub held : find_lease locked.attempt.id t ≡ some lease
    pub token : (lease.token_digest == call.token_digest) ≡ true
    pub request_digest : locked.attempt.session_request_digest ≡ some call.request_digest
    pub lease_digest : locked.attempt.session_lease_digest ≡ some call.token_digest
    pub receipt_stored : locked.attempt.session_receipt ≡ some receipt
    pub session_stored : receipt.session_id ≡ some session
    pub answer : b ≡ new_binding locked.profile.id conversation session

  -- The rows are the same in a store with the same tables.
  pub same_locked :
      (s t : Store) (locked : Locked)
      → SameRows s t
      → lock_rows is_turn context k s ≡ ok locked
      → lock_rows is_turn context k t ≡ ok locked
  same_locked s t locked h e =
      let l = lock_rows-IsLocked is_turn context k s locked e in
      IsLocked-lock_rows is_turn context k t locked (record {
        workspace_found = rw h.workspaces l.workspace_found;
        current = l.current;
        attempt_found = rw (h.attempts, h.executions) l.attempt_found;
        execution_found = rw h.executions l.execution_found;
        admitted = l.admitted;
        profile_found = rw h.profiles l.profile_found;
      })

  -- The rows after the receipt was stored.
  stored_locked :
      (s : Store) (bs : List ConversationBinding) (locked : Locked)
      → lock_rows is_turn context k s ≡ ok locked
      → lock_rows is_turn context k
          (update_attempt locked.attempt.id (with_receipt call) (record s { bindings = bs }))
        ≡ ok (record locked { attempt = with_receipt call locked.attempt })
  stored_locked s bs locked e =
      let l = lock_rows-IsLocked is_turn context k s locked e in
      IsLocked-lock_rows is_turn context k _ _ (record {
        workspace_found = l.workspace_found;
        current = l.current;
        attempt_found =
            find_first-rewritten
              (λ a. a.id == k && in_workspace locked.workspace.id (find_execution a.execution_id s))
              (λ a. a.id == locked.attempt.id) (with_receipt call) (λ a. refl) s.attempts
            ∙ rw l.attempt_found (ground arith);
        execution_found = l.execution_found;
        admitted = l.admitted;
        profile_found = l.profile_found;
      })

  pub Answers : Store × ConversationBinding → Type 0
  Answers done = Recorded done.0 done.1

  pub as_record : (t : Store) (b : ConversationBinding) → Answers (t, b) → Recorded t b
  unfolding Answers
  as_record t b h = h

  pub held_by :
      (j : ℕ) (lease : Lease) (t u : Store)
      → u.leases ≡ t.leases
      → find_lease j t ≡ some lease
      → find_lease j u ≡ some lease
  held_by j lease t u e h = rw e h

  module _ (s : Store) (locked : Locked) (lease : Lease) (now : ℕ)
      (checked : check_update call ≡ ok tt) (rows : lock_rows is_turn context k s ≡ ok locked)
      (may_write : profile_allows_runtime_write locked.profile ≡ true)
      (held : find_lease locked.attempt.id s ≡ some lease)
      (token : (lease.token_digest == call.token_digest) ≡ true) where
    pub replay-Answers : Ensures Answers (replay_session locked.attempt locked.profile call s)
    unfolding replay_session Answers
    replay-Answers =
        Ensures-ensure Answers
          (opt_eq locked.attempt.session_request_digest (some call.request_digest)
            && opt_eq locked.attempt.session_lease_digest (some call.token_digest))
          idempotency_conflict _
          λ digests.
            Ensures-bind Answers (or_raise (find_binding locked.profile.id s) lease_conflict) _
              λ b. received locked.attempt.session_receipt refl digests b
      where
        received :
            (o : Option SessionReceipt)
            → locked.attempt.session_receipt ≡ o
            → (opt_eq locked.attempt.session_request_digest (some call.request_digest)
                && opt_eq locked.attempt.session_lease_digest (some call.token_digest))
              ≡ true
            → (b : ConversationBinding)
            → Ensures Answers (
                or_raise (elim o [ none ↦ none | some r ↦ r.session_id ]) lease_conflict
                >>= λ session.
                    ok (s, new_binding locked.profile.id b.cloud_conversation_ref session))
        received none e digests b = tt
        received (some r) e digests b =
            Ensures-or_raise Answers r.session_id lease_conflict
              (λ session. ok (s, new_binding locked.profile.id b.cloud_conversation_ref session))
              λ session stored. record {
                locked = locked;
                lease = lease;
                session = session;
                receipt = r;
                conversation = b.cloud_conversation_ref;
                checked = checked;
                rows = rows;
                may_write = may_write;
                held = held;
                token = token;
                request_digest =
                    first_digest locked.attempt.session_request_digest
                      locked.attempt.session_lease_digest call.request_digest call.token_digest
                      digests;
                lease_digest =
                    second_digest locked.attempt.session_request_digest
                      locked.attempt.session_lease_digest call.request_digest call.token_digest
                      digests;
                receipt_stored = e;
                session_stored = stored;
                answer = refl;
              }

    -- The receipt is stored, and the answer is the binding with the new session.
    stored-Answers :
        (bs : List ConversationBinding) (b : ConversationBinding) (conversation : String)
        → b ≡ new_binding locked.profile.id conversation call.effective_session_id
        → Answers (store_session_receipt locked.attempt call (record s { bindings = bs }), b)
    unfolding store_session_receipt Answers
    stored-Answers bs b conversation e = record {
      locked = record locked { attempt = with_receipt call locked.attempt };
      lease = lease;
      session = call.effective_session_id;
      receipt = record { session_id = some call.effective_session_id };
      conversation = conversation;
      checked = checked;
      rows = stored_locked s bs locked rows;
      may_write = may_write;
      held = held;
      token = token;
      request_digest = refl;
      lease_digest = refl;
      receipt_stored = refl;
      session_stored = refl;
      answer = e;
    }

    rebind-Answers :
        (b : ConversationBinding)
        → find_binding locked.profile.id s ≡ some b
        → Ensures Answers (rebind locked.attempt b call s)
    unfolding rebind save_session
    rebind-Answers b found =
        Ensures-bind Answers
          (ensure (text_eq b.cloud_conversation_ref call.cloud_conversation_ref) lease_conflict) _
          λ _. elim (Bool-cases (is_session b.hermes_session_id call.effective_session_id)) [
            | inl c ↦ rw c (
                stored-Answers s.bindings b b.cloud_conversation_ref
                  (bound_to locked.profile.id call.effective_session_id b s.bindings found c))
            | inr c ↦ rw c (
                Ensures-bind Answers
                  (ensure (same_session call.expected_session_id b.hermes_session_id)
                    lease_conflict)
                  _
                  λ _.
                    stored-Answers
                      (update_where (λ x. x.profile_id == b.profile_id)
                        (λ x. record x { hermes_session_id = some call.effective_session_id })
                        s.bindings)
                      (record b { hermes_session_id = some call.effective_session_id })
                      b.cloud_conversation_ref
                      (rebound locked.profile.id call.effective_session_id b s.bindings found))
          ]

    bind_first-Answers : Ensures Answers (bind_first locked.attempt locked.profile call s)
    unfolding bind_first create_binding
    bind_first-Answers =
        let b =
          new_binding locked.profile.id call.cloud_conversation_ref call.effective_session_id in
        Ensures-bind Answers (refuse (is_some call.expected_session_id) lease_conflict) _ λ _.
          Ensures->>=
            (λ done. (bs : List ConversationBinding) × (done ≡ (record s { bindings = bs }, b)))
            Answers (create_binding lease_conflict b s) _
            (Ensures-bind _
              (refuse (is_some (find_first (binding_clashes b) s.bindings)) lease_conflict) _
              λ _. (s.bindings ++ b ∷ [], refl))
            λ done h. rw h.1 (stored-Answers h.0 b call.cloud_conversation_ref refl)

    pub bind_session-Answers : Ensures Answers (bind_session locked lease call now s)
    unfolding bind_session
    bind_session-Answers =
        Ensures-bind Answers
          (ensure (lease.machine_generation == locked.workspace.machine_generation) fenced) _
          λ _. Ensures-bind Answers (ensure (is_active lease.state) lease_conflict) _ λ _.
            Ensures-bind Answers (ensure (ltb now lease.expires_at) lease_conflict) _
              λ _. either (find_binding locked.profile.id s) refl
      where
        either :
            (o : Option ConversationBinding)
            → find_binding locked.profile.id s ≡ o
            → Ensures Answers (elim o [
              | none ↦ bind_first locked.attempt locked.profile call s
              | some b ↦ rebind locked.attempt b call s
            ])
        either none e = bind_first-Answers
        either (some b) e = rebind-Answers b e
