-- ===== src/Intents/Identity.antt =====
-- An operation that is under way has an identity, whatever is requested.
use allies_foundry.Base.{
  ℕ, ◌+◌, ◌≡◌, refl, Bool, true, false, ◌&&◌, ◌||◌, not, Option, none, some, is_some, ltb, leb,
  List, ◌==◌, arith, if◌then◌else◌, All, All-update_where, find_first-All, Result, ok, ensure,
  refuse, conflict, not_found, idempotency_conflict, Ensures, Ensures-bind, Ensures->>=, Ensures-ok,
  Ensures-or_raise,
}
use allies_foundry.Models.{Workspace, seconds}
use allies_foundry.Claims.Ready.{is_in_flight, is_runtime_ready}
use allies_foundry.Intents.Requests.{
  Power, RuntimeOperationTrigger, RuntimeIntentOutcome, Waked, RuntimeIntent, RuntimeIntentType,
  Tables, WakeSettings, RuntimeIntentReceipt, Answer, is_idle, is_stopping, has_existing_binding,
  extend_keep_warm, request_operation, replace_stop, count_recent, join_operation, start_operation,
  same_type, find_intent, find_workspace, new_intent, create_intent, replay_intent, answer_intent,
  accept_intent, request_runtime_intent,
}
use allies_foundry.Intents.Waking.{has_identity, warm-has_identity}

-- Every workspace is so.
abbrev pub AllIdentified : Tables → Type 0
AllIdentified s = All (λ (w : Waked). has_identity w.power ≡ true) s.workspaces

Identified : Answer → Type 0
Identified a = has_identity a.power ≡ true

Ensures-if {ℓ κ} :
    {A : Type ℓ} (Q : A → Type κ) (b : Bool) (x y : Result A)
    → Ensures Q x
    → Ensures Q y
    → Ensures Q (if b then x else y)
Ensures-if Q true x y h k = h
Ensures-if Q false x y h k = k

identified_by : (p : Power) (id : ℕ) → p.runtime_operation_id ≡ some id → has_identity p ≡ true
unfolding has_identity
identified_by p id e = rw e (ground arith)

join-Identified :
    (settings : WakeSettings) (fresh now : ℕ) (p : Power)
    → Ensures Identified (join_operation settings fresh now p)
unfolding join_operation Identified
join-Identified settings fresh now p =
    let current =
      if is_stopping p.runtime_operation_state
      then replace_stop fresh RuntimeOperationTrigger.speculative now p
      else p in
    Ensures-or_raise Identified current.runtime_operation_id conflict _
      λ id e. warm-has_identity settings.keep_warm now current (identified_by current id e)

start-Identified :
    (settings : WakeSettings) (fresh now : ℕ) (p : Power)
    → has_identity p ≡ true
    → Ensures Identified (ok (start_operation settings fresh now p))
unfolding start_operation Identified request_operation
start-Identified settings fresh now p h = either (elim p.last_speculative_start_at [
  | none ↦ false
  | some t ↦ leb now (t + settings.start_cooldown)
])
  where
    requested : Power
    requested = request_operation fresh RuntimeOperationTrigger.speculative now p

    either :
        (b : Bool)
        → Identified (
            if b
            then record {
              power = p;
              outcome = RuntimeIntentOutcome.rate_limited;
              operation_id = none;
            }
            else record {
              power = extend_keep_warm settings.keep_warm now requested;
              outcome = RuntimeIntentOutcome.waking;
              operation_id = some fresh;
            })
    either true = h
    either false =
        warm-has_identity settings.keep_warm now requested (identified_by requested fresh refl)

answer-Identified :
    (settings : WakeSettings) (fresh received now : ℕ) (skewed : Bool) (w : Workspace) (p : Power)
    (intents : List RuntimeIntent)
    → has_identity p ≡ true
    → Ensures Identified (answer_intent settings fresh received now skewed w p intents)
unfolding answer_intent Identified
answer-Identified settings fresh received now skewed w p intents h =
    Ensures-if Identified (skewed || ltb (received + settings.intent_ttl) now) _ _ h (
      Ensures-if Identified (leb 30 (count_recent w.id now intents)) _ _ h (
        Ensures-if Identified (is_runtime_ready settings.freshness w now) _ _
          (warm-has_identity settings.keep_warm now p h)
          (Ensures-if Identified (is_in_flight w.provisioning_phase) _ _ h (
            Ensures-if Identified (not (has_existing_binding w)) _ _ h (
              Ensures-if Identified (not (is_idle p.runtime_operation_state)) _ _
                (join-Identified settings fresh now p)
                (start-Identified settings fresh now p h))))))

Kept : Tables × RuntimeIntentReceipt → Type 0
Kept done = AllIdentified done.0

create-Kept :
    (i : RuntimeIntent) (power : Power) (s : Tables)
    → AllIdentified s
    → has_identity power ≡ true
    → Ensures Kept (create_intent i power s)
unfolding create_intent Kept
create-Kept i power s h k =
    Ensures-bind Kept (refuse (is_some (find_intent i.workspace_id i.idempotency_key s)) conflict) _
      λ _.
        Ensures-bind Kept
          (ensure (ltb i.received_at i.expires_at && leb i.expires_at i.delete_after) conflict) _
          λ _.
            All-update_where (λ (w : Waked). has_identity w.power ≡ true)
              (λ w. w.workspace.id == i.workspace_id) (λ w. record w { power = power }) (λ w e g. k)
              s.workspaces h

request-Kept :
    (settings : WakeSettings) (fresh now k key : ℕ) (type : RuntimeIntentType) (received_at : ℕ)
    (s : Tables)
    → AllIdentified s
    → Ensures Kept (request_runtime_intent settings fresh now k key type received_at s)
unfolding request_runtime_intent replay_intent accept_intent Kept Identified
request-Kept settings fresh now k key type received_at s h =
    Ensures-or_raise Kept (find_workspace k s) not_found _ λ row found.
      either row
        (find_first-All (λ (w : Waked). has_identity w.power ≡ true) (λ w. w.workspace.id == k)
          s.workspaces row h found).0
        (find_intent row.workspace.id key s)
  where
    either :
        (row : Waked)
        → has_identity row.power ≡ true
        → (o : Option RuntimeIntent)
        → Ensures Kept (elim o [
          | none ↦ accept_intent settings fresh now key type received_at row s
          | some i ↦ replay_intent i type s
        ])
    either row g (some i) =
        Ensures-bind Kept (ensure (same_type i.intent_type type) idempotency_conflict) _ λ _. h
    either row g none =
        let skewed = ltb (now + seconds 5) received_at in
        let received = if skewed then now else received_at in
        Ensures->>= Identified Kept
          (answer_intent settings fresh received now skewed row.workspace row.power s.intents) _
          (answer-Identified settings fresh received now skewed row.workspace row.power s.intents g)
          λ answer i.
            create-Kept (new_intent settings row key type received answer) answer.power s h i

-- An intent that is answered leaves every workspace whose operation is under way with an identity of
-- that operation, if every workspace was so before.
pub request-AllIdentified :
    (settings : WakeSettings) (fresh now k key : ℕ) (type : RuntimeIntentType) (received_at : ℕ)
    (s t : Tables) (receipt : RuntimeIntentReceipt)
    → AllIdentified s
    → request_runtime_intent settings fresh now k key type received_at s ≡ ok (t, receipt)
    → AllIdentified t
unfolding Kept
request-AllIdentified settings fresh now k key type received_at s t receipt h e =
    Ensures-ok Kept (request_runtime_intent settings fresh now k key type received_at s)
      (request-Kept settings fresh now k key type received_at s h) e
