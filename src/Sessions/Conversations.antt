-- ===== src/Sessions/Conversations.antt =====
-- The conversations of profiles: a profile never changes its own.
use allies_foundry.Base.{ℕ, ◌≡◌, String, Option, ok}
use allies_foundry.Models.{Store, ConversationBinding, RuntimeContext}
use allies_foundry.Sessions.Bindings.{compare_and_set_session}
use allies_foundry.Sessions.Service.{SessionUpdate, update_session_binding}
use allies_foundry.Sessions.Sharing.{Changed}

abbrev Changes : Store → Store × ConversationBinding → Type 0
Changes s done = Changed s.bindings done.0.bindings

-- A transaction that binds or rotates a session, or one that leaves the bindings alone.
pub data Step (s t : Store) : Type 0 where
  updated :
      (context : RuntimeContext) (k : ℕ) (call : SessionUpdate) (now : ℕ) (b : ConversationBinding)
      → update_session_binding context k call now s ≡ ok (t, b)
      → Step s t
  compared :
      (k : ℕ) (expected : Option String) (session : String) (conversation : Option String)
      (b : ConversationBinding)
      → compare_and_set_session k expected session conversation s ≡ ok (t, b)
      → Step s t
  elsewhere : t.bindings ≡ s.bindings → Step s t

pub data History (start : Store) : Store → Type 0 where
  here : History start start
  next : {s t : Store} → History start s → Step s t → History start t
