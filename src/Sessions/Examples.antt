-- ===== src/Sessions/Examples.antt =====
-- A conversation of a concrete profile, and the theorems of this component applied to it.
use allies_foundry.Base.{
  ◌≡◌, refl, none, some, [], ◌∷◌, ok, find_first, update_where, String, Option, ◌==◌,
}
use allies_foundry.Models.{Store, ConversationBinding}
use allies_foundry.Leases.Rows.{lock_rows}
use allies_foundry.Events.Append.{validate_nonempty}
use allies_foundry.Samples.{workspace, profile, execution, attempt, store, context}
use allies_foundry.Sessions.Bindings.{
  binding_clashes, create_binding, save_session, rotate, compare_and_set_session,
}
use allies_foundry.Sessions.Service.{
  SessionUpdate, check_update, store_session_receipt, bind_first, bind_session,
  update_session_binding,
}
use allies_foundry.Sessions.Found.{SameRows}
use allies_foundry.Sessions.Replay.{replayed_session}
use allies_foundry.Sessions.Conversations.{History, here, next, updated, compared}
use allies_foundry.Leases.Finished.{is_turn}
use allies_foundry.Leases.Rows.{Locked}
use allies_foundry.Sessions.Accepted.{
  Binds, update_session_binding-Binds, compare_and_set_session-Binds,
}
use allies_foundry.Sessions.Comparing.{compare_and_set_session-expects}

abbrev call : SessionUpdate
call = record {
  cloud_conversation_ref = "conversation";
  expected_session_id = none;
  effective_session_id = "first";
  request_digest = 90;
  token_digest = 77;
}

abbrev binding : ConversationBinding
binding = record {
  profile_id = 2;
  cloud_conversation_ref = "conversation";
  hermes_session_id = some "first";
}

abbrev bound : Store
bound = record store {
  attempts =
      record attempt {
        session_request_digest = some 90;
        session_lease_digest = some 77;
        session_receipt = some (record { session_id = some "first" });
      }
      ∷ [];
  bindings = binding ∷ [];
}

binds : update_session_binding context 4 call 100 store ≡ ok (bound, binding)
unfolding update_session_binding check_update validate_nonempty lock_rows bind_session bind_first
    create_binding binding_clashes store_session_receipt find_first update_where
binds = refl

-- The profile takes another session.
abbrev second : ConversationBinding
second = record binding { hermes_session_id = some "second" }

abbrev rotated : Store
rotated = record bound { bindings = second ∷ [] }

rotates :
    compare_and_set_session 2 (some "first") "second" (some "conversation") bound
    ≡ ok (rotated, second)
unfolding compare_and_set_session rotate save_session validate_nonempty find_first update_where
rotates = refl

same_rows : SameRows bound rotated
same_rows = record {
  workspaces = refl;
  profiles = refl;
  executions = refl;
  leases = refl;
  attempts = refl;
}

still_bound :
    find_first (λ (b : ConversationBinding). b.profile_id == 2) rotated.bindings ≡ some second
unfolding find_first
still_bound = refl

first_bound :
    find_first (λ (b : ConversationBinding). b.profile_id == 2) bound.bindings ≡ some binding
unfolding find_first
first_bound = refl

-- The lease ran out at 500, and the session has changed since.
replayed_session_example : update_session_binding context 4 call 900 rotated ≡ ok (rotated, binding)
replayed_session_example =
    replayed_session context 4 call 100 900 store bound rotated binding second binds same_rows
      still_bound refl

abbrev bound_and_rotated : History store rotated
bound_and_rotated =
    next (next here (updated context 4 call 100 binding binds))
      (compared 2 (some "first") "second" (some "conversation") second rotates)

abbrev only_rotated : History bound rotated
only_rotated = next here (compared 2 (some "first") "second" (some "conversation") second rotates)

compare_and_set_session-expects_example : ◌≡◌ {A = Option String} (some "first") (some "first")
compare_and_set_session-expects_example =
    compare_and_set_session-expects 2 (some "first") "second" (some "conversation") bound rotated
      second binding first_bound refl refl rotates

abbrev locked : Locked
locked = record {
  workspace = workspace;
  attempt = attempt;
  execution = execution;
  profile = profile;
}

locks : lock_rows is_turn context 4 store ≡ ok locked
unfolding lock_rows find_first
locks = refl

update_session_binding-Binds_example : Binds 2 "conversation" "first" (bound, binding)
update_session_binding-Binds_example =
    update_session_binding-Binds context 4 call 100 store bound locked binding locks refl binds

compare_and_set_session-Binds_example : Binds 2 "conversation" "second" (rotated, second)
compare_and_set_session-Binds_example =
    compare_and_set_session-Binds 2 (some "first") "second" "conversation" bound rotated second
      rotates
