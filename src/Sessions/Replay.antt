-- ===== src/Sessions/Replay.antt =====
-- A session that was bound may be bound again by the same request.
use allies_foundry.Base.{
  ℕ, ◌≡◌, refl, ap, subst, ◌∙◌, true, ◌&&◌, some, is_some, ◌==◌, opt_eq, arith, inl, inr,
  Bool-cases, ok, lease_conflict, Ensures, Ensures-ok, Ensures->>=, Ensures-ensure,
  Ensures-or_raise, Ensures-intro,
}
use allies_foundry.Models.{Store, ConversationBinding, RuntimeContext, profile_allows_runtime_write}
use allies_foundry.Approvals.Service.{find_lease}
use allies_foundry.Leases.Rows.{lock_rows}
use allies_foundry.Leases.Finished.{is_turn}
use allies_foundry.Sessions.Bindings.{find_binding}
use allies_foundry.Sessions.Service.{
  SessionUpdate, check_update, replay_session, update_session_binding,
}
use allies_foundry.Sessions.Found.{SameRows}
use allies_foundry.Sessions.Recorded.{
  Recorded, same_locked, Answers, as_record, held_by, replay-Answers, bind_session-Answers,
}

module _ (context : RuntimeContext) (k : ℕ) (call : SessionUpdate) where
  update-Answers :
      (now : ℕ) (s : Store)
      → Ensures (Answers context k call) (update_session_binding context k call now s)
  unfolding update_session_binding
  update-Answers now s =
      Ensures->>= (λ _. check_update call ≡ ok tt) (Answers context k call) (check_update call) _
        (Ensures-intro _ (check_update call) (λ u e. e))
        λ _ checked.
          Ensures->>= (λ locked. lock_rows is_turn context k s ≡ ok locked) (Answers context k call)
            (lock_rows is_turn context k s) _
            (Ensures-intro _ (lock_rows is_turn context k s) (λ a e. e))
            λ locked rows.
              Ensures-ensure (Answers context k call) (profile_allows_runtime_write locked.profile)
                lease_conflict _
                λ may_write.
                  Ensures-or_raise (Answers context k call) (find_lease locked.attempt.id s)
                    lease_conflict _
                    λ lease held.
                      Ensures-ensure (Answers context k call)
                        (lease.token_digest == call.token_digest) lease_conflict _
                        λ token. elim (Bool-cases (is_some locked.attempt.session_request_digest)) [
                          | inl c ↦ rw c (
                              replay-Answers context k call s locked lease now checked rows
                                may_write held token)
                          | inr c ↦ rw c (
                              bind_session-Answers context k call s locked lease now checked rows
                                may_write held token)
                        ]

  answers_again :
      (later : ℕ) (t u : Store) (b c : ConversationBinding)
      → Recorded context k call t b
      → SameRows t u
      → find_binding b.profile_id u ≡ some c
      → c.cloud_conversation_ref ≡ b.cloud_conversation_ref
      → update_session_binding context k call later u ≡ ok (u, b)
  unfolding update_session_binding replay_session
  answers_again later t u b c h same found conversation =
      let bound : find_binding h.locked.profile.id u ≡ some c =
        subst (λ (x : ConversationBinding). find_binding x.profile_id u ≡ some c) h.answer found in
      let equal : c.cloud_conversation_ref ≡ h.conversation =
        conversation ∙ ap (λ (x : ConversationBinding). x.cloud_conversation_ref) h.answer in
      let digests : (opt_eq (some call.request_digest) (some call.request_digest)
            && opt_eq (some call.token_digest) (some call.token_digest))
          ≡ true =
        ground arith in
      rw
        (
          h.checked,
          same_locked context k call t u h.locked same h.rows,
          h.may_write,
          held_by context k call h.locked.attempt.id h.lease t u same.leases h.held,
          h.token,
          h.request_digest,
          h.lease_digest,
          digests,
          bound,
          h.receipt_stored,
          h.session_stored,
          equal,
          h.answer,
        )
        refl

  -- A session that was bound, or found bound, is answered with the same binding when the request is
  -- repeated at any later time, also after the lease has run out or the profile took another session,
  -- and nothing is written. The condition is that the profile is still bound to its conversation, and
  -- the rows of the workspace, profile, execution, attempt and lease are as the request left them.
  pub replayed_session :
      (now later : ℕ) (s t u : Store) (b c : ConversationBinding)
      → update_session_binding context k call now s ≡ ok (t, b)
      → SameRows t u
      → find_binding b.profile_id u ≡ some c
      → c.cloud_conversation_ref ≡ b.cloud_conversation_ref
      → update_session_binding context k call later u ≡ ok (u, b)
  replayed_session now later s t u b c e = answers_again later t u b c (
      as_record context k call t b (Ensures-ok (Answers context k call) _ (update-Answers now s) e))
