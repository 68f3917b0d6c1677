-- ===== src/Sessions/Accepted.antt =====
-- What an accepted request binds: the conversation and the session that it names, and no other.
use allies_foundry.Base.{
  ℕ, ◌≡◌, refl, subst, ◌∙◌, String, true, false, not, Option, none, some, is_some, ltb, ◌==◌,
  text_eq, text_eq_iff, arith, inl, inr, Bool-cases, find_first, find_first-rewritten,
  find_first-appended, ok, ensure, refuse, or_raise, RuntimeDomainError, validation, conflict,
  fenced, lease_conflict, Ensures, Ensures-ok, Ensures-bind, Ensures->>=, Ensures-ensure,
}
use allies_foundry.Models.{
  Store, Lease, ConversationBinding, RuntimeContext, is_active, profile_allows_runtime_write,
}
use allies_foundry.Approvals.Service.{find_lease}
use allies_foundry.Leases.Rows.{Locked, lock_rows, find_profile}
use allies_foundry.Leases.Finished.{is_turn}
use allies_foundry.Events.Append.{validate_nonempty}
use allies_foundry.Sessions.Bindings.{
  find_binding, is_session, same_session, is_truthy, new_binding, create_binding, save_session,
  binding_clashes, rotate, first_bind, compare_and_set_session, check_optional,
}
use allies_foundry.Sessions.Service.{
  SessionUpdate, check_update, store_session_receipt, rebind, bind_first, bind_session,
  update_session_binding,
}
use allies_foundry.Sessions.Found.{found_profile, bound_to, rebound}

-- The answer is the binding of the profile to this conversation and session, and it is stored.
abbrev pub Binds : ℕ → String → String → Store × ConversationBinding → Type 0
Binds k conversation session done =
    (done.1 ≡ new_binding k conversation session) × (find_binding k done.0 ≡ some done.1)

module _ (k : ℕ) (session : String) where
  saved_found :
      (b : ConversationBinding) (s : Store)
      → find_binding k s ≡ some b
      → find_binding k (save_session b session s).0
        ≡ some (record b { hermes_session_id = some session })
  unfolding save_session
  saved_found b s found =
      let own = found_profile k b s.bindings found in
      find_first-rewritten (λ (x : ConversationBinding). x.profile_id == k)
        (λ x. x.profile_id == b.profile_id) (λ x. record x { hermes_session_id = some session })
        (λ x. refl) s.bindings
      ∙ rw found (ground arith)

  create_binding-Binds :
      (e : RuntimeDomainError) (c : String) (s : Store)
      → find_binding k s ≡ none
      → Ensures (Binds k c session) (create_binding e (new_binding k c session) s)
  unfolding create_binding
  create_binding-Binds e c s absent =
      Ensures-bind (Binds k c session)
        (refuse (is_some (find_first (binding_clashes (new_binding k c session)) s.bindings)) e) _
        λ _. (
          refl,
          find_first-appended (λ (x : ConversationBinding). x.profile_id == k)
              (new_binding k c session) s.bindings absent (ground arith),
        )

  -- A binding that is there, of the same conversation, with this session or given it.
  kept-Binds :
      (b : ConversationBinding) (c : String) (s : Store)
      → find_binding k s ≡ some b
      → text_eq b.cloud_conversation_ref c ≡ true
      → is_session b.hermes_session_id session ≡ true
      → Binds k c session (s, b)
  kept-Binds b c s found same held = (
    subst (λ x. b ≡ new_binding k x session) ((text_eq_iff b.cloud_conversation_ref c).0 same)
        (bound_to k session b s.bindings found held),
    found,
  )

  saved-Binds :
      (b : ConversationBinding) (c : String) (s : Store)
      → find_binding k s ≡ some b
      → text_eq b.cloud_conversation_ref c ≡ true
      → Binds k c session (save_session b session s)
  unfolding save_session
  saved-Binds b c s found same = (
    subst (λ x. record b { hermes_session_id = some session } ≡ new_binding k x session)
        ((text_eq_iff b.cloud_conversation_ref c).0 same) (rebound k session b s.bindings found),
    saved_found b s found,
  )

  rotate-Binds :
      (expected : Option String) (c : String) (b : ConversationBinding) (s : Store)
      → find_binding k s ≡ some b
      → Ensures (Binds k c session) (rotate expected session (some c) b s)
  unfolding rotate
  rotate-Binds expected c b s found =
      Ensures-ensure (Binds k c session) (text_eq b.cloud_conversation_ref c) conflict _ λ same.
        elim (Bool-cases (is_session b.hermes_session_id session)) [
          | inl h ↦ rw h (kept-Binds b c s found same h)
          | inr h ↦ rw h (
              Ensures-bind (Binds k c session)
                (ensure
                  (elim expected [
                    | none ↦ not (is_truthy b.hermes_session_id)
                    | some e ↦ is_session b.hermes_session_id e
                  ])
                  conflict)
                _ λ _. saved-Binds b c s found same)
        ]

  compare-Binds :
      (expected : Option String) (c : String) (s : Store)
      → Ensures (Binds k c session) (compare_and_set_session k expected session (some c) s)
  unfolding compare_and_set_session first_bind
  compare-Binds expected c s =
      let Q : Store × ConversationBinding → Type 0 = Binds k c session in
      Ensures-bind Q (validate_nonempty session 255) _ λ _.
        Ensures-bind Q (check_optional expected) _ λ _.
          Ensures-bind Q (check_optional (some c)) _ λ _.
            Ensures-bind Q (or_raise (find_profile k s) validation) _ λ profile.
              Ensures-bind Q (ensure (profile_allows_runtime_write profile) conflict) _
                λ _. either (find_binding k s) refl
    where
      either :
          (o : Option ConversationBinding)
          → find_binding k s ≡ o
          → Ensures (Binds k c session) (elim o [
            | none ↦ first_bind k expected session (some c) s
            | some b ↦ rotate expected session (some c) b s
          ])
      either none e =
          Ensures-bind (Binds k c session) (refuse (is_some expected) conflict) _
            λ _. create_binding-Binds conflict c s e
      either (some b) e = rotate-Binds expected c b s e

-- After an accepted compare-and-set that names a conversation, which a `bind_conversation` is, the
-- profile is bound to that conversation with the session that was asked for: the answer says so, and
-- it is the binding that is found under the profile.
pub compare_and_set_session-Binds :
    (k : ℕ) (expected : Option String) (session conversation : String) (s t : Store)
    (b : ConversationBinding)
    → compare_and_set_session k expected session (some conversation) s ≡ ok (t, b)
    → Binds k conversation session (t, b)
compare_and_set_session-Binds k expected session conversation s t b e =
    Ensures-ok (Binds k conversation session) _ (compare-Binds k session expected conversation s) e

module _ (locked : Locked) (call : SessionUpdate) (s : Store) where
  Bound : Store × ConversationBinding → Type 0
  Bound = Binds locked.profile.id call.cloud_conversation_ref call.effective_session_id

  rebind-Bound :
      (b : ConversationBinding)
      → find_binding locked.profile.id s ≡ some b
      → Ensures Bound (rebind locked.attempt b call s)
  unfolding Bound rebind store_session_receipt
  rebind-Bound b found =
      Ensures-ensure Bound (text_eq b.cloud_conversation_ref call.cloud_conversation_ref)
        lease_conflict _
        λ same. elim (Bool-cases (is_session b.hermes_session_id call.effective_session_id)) [
          | inl h ↦ rw h (
              kept-Binds locked.profile.id call.effective_session_id b call.cloud_conversation_ref s
                found same h)
          | inr h ↦ rw h (
              Ensures-bind Bound
                (ensure (same_session call.expected_session_id b.hermes_session_id) lease_conflict)
                _
                λ _.
                  saved-Binds locked.profile.id call.effective_session_id b
                    call.cloud_conversation_ref s found same)
        ]

  bind_first-Bound :
      find_binding locked.profile.id s ≡ none
      → Ensures Bound (bind_first locked.attempt locked.profile call s)
  unfolding Bound bind_first store_session_receipt
  bind_first-Bound absent =
      let b = new_binding locked.profile.id call.cloud_conversation_ref call.effective_session_id in
      Ensures-bind Bound (refuse (is_some call.expected_session_id) lease_conflict) _ λ _.
        Ensures->>= Bound Bound (create_binding lease_conflict b s) _
          (create_binding-Binds locked.profile.id call.effective_session_id lease_conflict
            call.cloud_conversation_ref s absent)
          λ done h. h

  bind_session-Bound :
      (lease : Lease) (now : ℕ) → Ensures Bound (bind_session locked lease call now s)
  unfolding bind_session
  bind_session-Bound lease now =
      Ensures-bind Bound
        (ensure (lease.machine_generation == locked.workspace.machine_generation) fenced) _
        λ _. Ensures-bind Bound (ensure (is_active lease.state) lease_conflict) _ λ _.
          Ensures-bind Bound (ensure (ltb now lease.expires_at) lease_conflict) _
            λ _. either (find_binding locked.profile.id s) refl
    where
      either :
          (o : Option ConversationBinding)
          → find_binding locked.profile.id s ≡ o
          → Ensures Bound (elim o [
            | none ↦ bind_first locked.attempt locked.profile call s
            | some b ↦ rebind locked.attempt b call s
          ])
      either none e = bind_first-Bound e
      either (some b) e = rebind-Bound b e

update-Bound :
    (context : RuntimeContext) (k : ℕ) (call : SessionUpdate) (now : ℕ) (s : Store)
    (locked : Locked)
    → lock_rows is_turn context k s ≡ ok locked
    → locked.attempt.session_request_digest ≡ none
    → Ensures (Bound locked call s) (update_session_binding context k call now s)
unfolding update_session_binding
update-Bound context k call now s locked rows fresh =
    let Q : Store × ConversationBinding → Type 0 = Bound locked call s in
    let unbound : is_some locked.attempt.session_request_digest ≡ false = rw fresh refl in
    Ensures-bind Q (check_update call) _ λ _. rw rows (
      Ensures-bind Q (ensure (profile_allows_runtime_write locked.profile) lease_conflict) _ λ _.
        Ensures-bind Q (or_raise (find_lease locked.attempt.id s) lease_conflict) _ λ lease.
          Ensures-bind Q (ensure (lease.token_digest == call.token_digest) lease_conflict) _
            λ _. rw unbound (bind_session-Bound locked call s lease now))

-- A session update that was accepted from an attempt without a receipt binds the profile of the
-- attempt to the conversation and the session that the update names: the answer says so, and it is
-- the binding that is found under the profile.
pub update_session_binding-Binds :
    (context : RuntimeContext) (k : ℕ) (call : SessionUpdate) (now : ℕ) (s t : Store)
    (locked : Locked) (b : ConversationBinding)
    → lock_rows is_turn context k s ≡ ok locked
    → locked.attempt.session_request_digest ≡ none
    → update_session_binding context k call now s ≡ ok (t, b)
    → Binds locked.profile.id call.cloud_conversation_ref call.effective_session_id (t, b)
unfolding Bound
update_session_binding-Binds context k call now s t locked b rows fresh e =
    Ensures-ok (Bound locked call s) _ (update-Bound context k call now s locked rows fresh) e
