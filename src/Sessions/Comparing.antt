-- ===== src/Sessions/Comparing.antt =====
-- A compare-and-set replaces a session only where the caller knew it.
use allies_foundry.Base.{
  ℕ, ◌≡◌, sym, ap, String, true, false, not, Option, none, some, text_eq, text_eq_iff, arith, ok,
  ensure, or_raise, validation, conflict, Ensures, Ensures-ok, Ensures-bind, Ensures-ensure,
}
use allies_foundry.Models.{Store, ConversationBinding, profile_allows_runtime_write}
use allies_foundry.Leases.Rows.{find_profile}
use allies_foundry.Events.Append.{validate_nonempty}
use allies_foundry.Sessions.Bindings.{
  find_binding, is_session, is_truthy, rotate, compare_and_set_session, check_optional,
}

compared_with :
    (expected stored : Option String)
    → is_truthy stored ≡ true
    → (elim expected [ none ↦ not (is_truthy stored) | some e ↦ is_session stored e ]) ≡ true
    → expected ≡ stored
compared_with none stored truthy h = ground (arith, truthy, h)
compared_with (some e) none truthy h = cc
compared_with (some e) (some t) truthy h = ap some (sym ((text_eq_iff t e).0 h))

-- What a compare-and-set rests on, where it replaces a session.
rotate_expects :
    (expected : Option String) (session : String) (conversation : Option String)
    (b : ConversationBinding) (s : Store)
    → is_session b.hermes_session_id session ≡ false
    → is_truthy b.hermes_session_id ≡ true
    → Ensures (λ _. expected ≡ b.hermes_session_id) (rotate expected session conversation b s)
unfolding rotate
rotate_expects expected session conversation b s differs truthy =
    Ensures-bind Q
      (ensure (elim conversation [ none ↦ true | some c ↦ text_eq b.cloud_conversation_ref c ])
        conflict)
      _
      λ _. rw differs (
        Ensures-ensure Q
          (elim expected [
            | none ↦ not (is_truthy b.hermes_session_id)
            | some e ↦ is_session b.hermes_session_id e
          ])
          conflict _ (compared_with expected b.hermes_session_id truthy))
  where
    Q : Store × ConversationBinding → Type 0
    Q done = expected ≡ b.hermes_session_id

-- A compare-and-set that replaces a session that is not empty by another one was told this very
-- session: an update in between is never lost.
pub compare_and_set_session-expects :
    (k : ℕ) (expected : Option String) (session : String) (conversation : Option String)
    (s t : Store) (b c : ConversationBinding)
    → find_binding k s ≡ some c
    → is_session c.hermes_session_id session ≡ false
    → is_truthy c.hermes_session_id ≡ true
    → compare_and_set_session k expected session conversation s ≡ ok (t, b)
    → expected ≡ c.hermes_session_id
unfolding compare_and_set_session
compare_and_set_session-expects k expected session conversation s t b c found differs truthy e =
    Ensures-ok Q (compare_and_set_session k expected session conversation s)
      (Ensures-bind Q (validate_nonempty session 255) _ λ _.
        Ensures-bind Q (check_optional expected) _ λ _.
          Ensures-bind Q (check_optional conversation) _ λ _.
            Ensures-bind Q (or_raise (find_profile k s) validation) _ λ profile.
              Ensures-bind Q (ensure (profile_allows_runtime_write profile) conflict) _
                λ _. rw found (rotate_expects expected session conversation c s differs truthy))
      e
  where
    Q : Store × ConversationBinding → Type 0
    Q done = expected ≡ c.hermes_session_id
