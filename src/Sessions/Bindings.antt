-- ===== src/Sessions/Bindings.antt =====
-- The bindings of profiles to conversations, and `compare_and_set_session` of
-- backend/runtime/services/sessions.py.
use allies_foundry.Base.{
  ℕ, String, Bool, true, false, ◌||◌, not, Option, none, some, is_some, [], ◌∷◌, ◌++◌, ◌==◌,
  if◌then◌else◌, text_eq, find_first, update_where, RuntimeDomainError, Result, ok, ◌>>=◌, ◌>>◌,
  ensure, refuse, or_raise, validation, conflict,
}
use allies_foundry.Models.{Store, ConversationBinding, profile_allows_runtime_write}
use allies_foundry.Leases.Rows.{find_profile}
use allies_foundry.Events.Append.{validate_nonempty}

abbrev pub find_binding : ℕ → Store → Option ConversationBinding
find_binding profile_id store = find_first (λ b. b.profile_id == profile_id) store.bindings

-- The comparison of an optional text with a text, and of two optional texts.
abbrev pub is_session : Option String → String → Bool
is_session none s = false
is_session (some t) s = text_eq t s

abbrev pub same_session : Option String → Option String → Bool
same_session none none = true
same_session none (some t) = false
same_session (some s) none = false
same_session (some s) (some t) = text_eq s t

-- The truth of an optional text, which is false of the empty one.
abbrev pub is_truthy : Option String → Bool
is_truthy none = false
is_truthy (some s) = not (text_eq s "")

abbrev pub new_binding : ℕ → String → String → ConversationBinding
new_binding profile_id conversation session = record {
  profile_id = profile_id;
  cloud_conversation_ref = conversation;
  hermes_session_id = some session;
}

-- What the key and the unique column do not allow.
unfoldable pub binding_clashes : ConversationBinding → ConversationBinding → Bool
binding_clashes a b =
    a.profile_id == b.profile_id || text_eq a.cloud_conversation_ref b.cloud_conversation_ref

-- `ConversationBinding.objects.create`, with the exception that stands for its `IntegrityError`.
unfoldable pub create_binding :
    RuntimeDomainError → ConversationBinding → Store → Result (Store × ConversationBinding)
unfolding binding_clashes
create_binding e b store = do
  refuse (is_some (find_first (binding_clashes b) store.bindings)) e
  ok (record store { bindings = store.bindings ++ b ∷ [] }, b)

-- The binding with another session, saved.
unfoldable pub save_session : ConversationBinding → String → Store → Store × ConversationBinding
save_session b session store = (
  record store {
    bindings =
        update_where (λ x. x.profile_id == b.profile_id)
          (λ x. record x { hermes_session_id = some session }) store.bindings;
  },
  record b { hermes_session_id = some session },
)

abbrev pub check_optional : Option String → Result (Unit {0})
check_optional none = ok tt
check_optional (some s) = validate_nonempty s 255

-- The binding that is there is kept, or takes the new session.
unfoldable pub rotate :
    Option String
    → String
    → Option String
    → ConversationBinding
    → Store
    → Result (Store × ConversationBinding)
unfolding save_session
rotate expected session conversation b store = do
  ensure (elim conversation [ none ↦ true | some c ↦ text_eq b.cloud_conversation_ref c ]) conflict
  if is_session b.hermes_session_id session then ok (store, b) else (do
    ensure
        (elim expected [
          | none ↦ not (is_truthy b.hermes_session_id)
          | some e ↦ is_session b.hermes_session_id e
        ])
        conflict
    ok (save_session b session store))

-- `_compare_and_set_session_once` where the profile has no binding.
unfoldable pub first_bind :
    ℕ → Option String → String → Option String → Store → Result (Store × ConversationBinding)
unfolding create_binding
first_bind profile_id expected session conversation store = do
  refuse (is_some expected) conflict
  c ← or_raise conversation validation
  create_binding conflict (new_binding profile_id c session) store

-- `compare_and_set_session`, within its retry.
unfoldable pub compare_and_set_session :
    ℕ → Option String → String → Option String → Store → Result (Store × ConversationBinding)
unfolding first_bind rotate
compare_and_set_session profile_id expected session conversation store = do
  validate_nonempty session 255
  check_optional expected
  check_optional conversation
  profile ← or_raise (find_profile profile_id store) validation
  ensure (profile_allows_runtime_write profile) conflict
  elim (find_binding profile_id store) [
    | none ↦ first_bind profile_id expected session conversation store
    | some b ↦ rotate expected session conversation b store
  ]

-- `bind_conversation`.
unfoldable pub bind_conversation :
    ℕ → String → String → Store → Result (Store × ConversationBinding)
unfolding compare_and_set_session
bind_conversation profile_id conversation session store =
    compare_and_set_session profile_id none session (some conversation) store
