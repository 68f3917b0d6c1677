-- ===== src/Intents/Requests.antt =====
-- `request_runtime_intent` and `request_execution_wake_locked` of
-- backend/runtime/services/runtime_intents.py. The columns of a workspace that say how it is woken
-- stand in a record of their own; `uuid4()` is an argument. A time less a period is never formed: the
-- period is added on the other side of the comparison.
use allies_foundry.Base.{
  ℕ, suc, ◌+◌, Bool, true, false, ◌&&◌, ◌||◌, not, Option, none, some, is_some, ltb, leb, List, [],
  ◌∷◌, ◌++◌, ◌==◌, if◌then◌else◌, find_first, update_where, Result, ok, ◌>>=◌, ◌>>◌, ensure, refuse,
  or_raise, conflict, not_found, idempotency_conflict,
}
use allies_foundry.Models.{Workspace, seconds}
use allies_foundry.Claims.Ready.{is_in_flight, is_runtime_ready}

pub data RuntimeOperationState : Type 0 where
  idle requested starting awaiting_readiness stopping : RuntimeOperationState

pub data RuntimeOperationTrigger : Type 0 where
  speculative execution onboarding : RuntimeOperationTrigger

pub data RuntimeIntentType : Type 0 where
  composing_started ally_creation_started : RuntimeIntentType

pub data RuntimeIntentOutcome : Type 0 where
  already_ready waking ready first_provision_required rate_limited failed : RuntimeIntentOutcome

-- The columns of a workspace that its wakes use.
pub record Power : Type 0 where
  pub runtime_operation_id : Option ℕ
  pub runtime_operation_state : RuntimeOperationState
  pub runtime_operation_trigger : Option RuntimeOperationTrigger
  pub runtime_operation_requested_at : Option ℕ
  pub runtime_operation_retry_count : ℕ
  pub activation_claim_token : Option ℕ
  pub activation_claim_expires_at : Option ℕ
  pub speculative_keep_warm_until : Option ℕ
  pub last_speculative_start_at : Option ℕ

pub record Waked : Type 0 where
  pub workspace : Workspace
  pub power : Power

pub record RuntimeIntent : Type 0 where
  pub workspace_id : ℕ
  pub idempotency_key : ℕ
  pub intent_type : RuntimeIntentType
  pub received_at : ℕ
  pub expires_at : ℕ
  pub delete_after : ℕ
  pub outcome : RuntimeIntentOutcome
  pub coalesced_operation_id : Option ℕ

pub record Tables : Type 0 where
  pub workspaces : List Waked
  pub intents : List RuntimeIntent

-- The settings, in microseconds.
pub record WakeSettings : Type 0 where
  pub freshness : ℕ
  pub intent_ttl : ℕ
  pub intent_retention : ℕ
  pub start_cooldown : ℕ
  pub keep_warm : ℕ

pub record RuntimeIntentReceipt : Type 0 where
  pub status : RuntimeIntentOutcome
  pub operation_id : Option ℕ
  pub replayed : Bool

unfoldable pub same_type : RuntimeIntentType → RuntimeIntentType → Bool
same_type RuntimeIntentType.composing_started RuntimeIntentType.composing_started = true
same_type RuntimeIntentType.ally_creation_started RuntimeIntentType.ally_creation_started = true
same_type _ _ = false

unfoldable pub is_idle : RuntimeOperationState → Bool
is_idle RuntimeOperationState.idle = true
is_idle _ = false

unfoldable pub is_stopping : RuntimeOperationState → Bool
is_stopping RuntimeOperationState.stopping = true
is_stopping _ = false

unfoldable pub is_for_execution : Option RuntimeOperationTrigger → Bool
is_for_execution (some RuntimeOperationTrigger.execution) = true
is_for_execution _ = false

unfoldable pub has_existing_binding : Workspace → Bool
has_existing_binding w =
    ltb 0 w.machine_generation
    && is_some w.fly_app_ref
    && is_some w.volume_ref
    && is_some w.machine_ref

-- `_extend_keep_warm`.
unfoldable pub extend_keep_warm : ℕ → ℕ → Power → Power
extend_keep_warm keep_warm now p =
    if elim p.speculative_keep_warm_until [ none ↦ true | some t ↦ ltb t (now + keep_warm) ]
    then record p { speculative_keep_warm_until = some (now + keep_warm) }
    else p

-- A new operation, and one that replaces the operation that stops the Machine.
unfoldable pub request_operation : ℕ → RuntimeOperationTrigger → ℕ → Power → Power
request_operation id trigger now p = record p {
  runtime_operation_id = some id;
  runtime_operation_state = RuntimeOperationState.requested;
  runtime_operation_trigger = some trigger;
  runtime_operation_requested_at = some now;
  runtime_operation_retry_count = 0;
}

unfoldable pub replace_stop : ℕ → RuntimeOperationTrigger → ℕ → Power → Power
unfolding request_operation
replace_stop id trigger now p = record (request_operation id trigger now p) {
  activation_claim_token = none;
  activation_claim_expires_at = none;
}

-- An operation that is under way is made the execution's.
unfoldable pub take_over : ℕ → Power → Result Power
unfolding is_for_execution
take_over now p = do
  ensure (is_some p.runtime_operation_id) conflict
  ok (
      if is_for_execution p.runtime_operation_trigger then p else record p {
        runtime_operation_trigger = some RuntimeOperationTrigger.execution;
        runtime_operation_requested_at = some now;
        runtime_operation_retry_count = 0;
      })

-- What a prompt makes of the operation, from the branch on its state on.
unfoldable pub wake_operation : ℕ → ℕ → Workspace → Power → Result Power
unfolding is_idle is_stopping has_existing_binding request_operation replace_stop take_over
wake_operation fresh now w p =
    if is_idle p.runtime_operation_state
    then ok (
        if has_existing_binding w
        then request_operation fresh RuntimeOperationTrigger.execution now p
        else p)
    else if is_stopping p.runtime_operation_state
    then ok (replace_stop fresh RuntimeOperationTrigger.execution now p)
    else take_over now p

unfoldable pub request_execution_wake_locked :
    WakeSettings → ℕ → ℕ → Workspace → Power → Result Power
unfolding extend_keep_warm wake_operation
request_execution_wake_locked settings fresh now w p =
    let warm = extend_keep_warm settings.keep_warm now p in
    if is_runtime_ready settings.freshness w now then ok warm else wake_operation fresh now w warm

-- `.count()` of the intents of a workspace that were received within the last minute.
unfoldable pub count_recent : ℕ → ℕ → List RuntimeIntent → ℕ
count_recent k now [] = 0
count_recent k now (i ∷ rest) =
    let n = count_recent k now rest in
    if i.workspace_id == k && leb now (i.received_at + seconds 60) then suc n else n

pub record Answer : Type 0 where
  pub power : Power
  pub outcome : RuntimeIntentOutcome
  pub operation_id : Option ℕ

-- The answers where an operation is under way, and where none is.
unfoldable pub join_operation : WakeSettings → ℕ → ℕ → Power → Result Answer
unfolding is_stopping replace_stop extend_keep_warm
join_operation settings fresh now p =
    let current =
      if is_stopping p.runtime_operation_state
      then replace_stop fresh RuntimeOperationTrigger.speculative now p
      else p in
    or_raise current.runtime_operation_id conflict >>= λ id. ok (record {
      power = extend_keep_warm settings.keep_warm now current;
      outcome = RuntimeIntentOutcome.waking;
      operation_id = some id;
    })

unfoldable pub start_operation : WakeSettings → ℕ → ℕ → Power → Answer
unfolding request_operation extend_keep_warm
start_operation settings fresh now p =
    if elim p.last_speculative_start_at [
      | none ↦ false
      | some t ↦ leb now (t + settings.start_cooldown)
    ]
    then record { power = p; outcome = RuntimeIntentOutcome.rate_limited; operation_id = none }
    else record {
      power =
          extend_keep_warm settings.keep_warm now
            (request_operation fresh RuntimeOperationTrigger.speculative now p);
      outcome = RuntimeIntentOutcome.waking;
      operation_id = some fresh;
    }

-- What a new intent is answered, and what it makes of the workspace.
unfoldable pub answer_intent :
    WakeSettings → ℕ → ℕ → ℕ → Bool → Workspace → Power → List RuntimeIntent → Result Answer
unfolding is_idle has_existing_binding count_recent extend_keep_warm join_operation start_operation
answer_intent settings fresh received now skewed w p intents =
    let join = join_operation settings fresh now p in
    if skewed || ltb (received + settings.intent_ttl) now
    then ok (record { power = p; outcome = RuntimeIntentOutcome.failed; operation_id = none })
    else if leb 30 (count_recent w.id now intents)
    then ok (record { power = p; outcome = RuntimeIntentOutcome.rate_limited; operation_id = none })
    else if is_runtime_ready settings.freshness w now
    then ok (record {
      power = extend_keep_warm settings.keep_warm now p;
      outcome = RuntimeIntentOutcome.already_ready;
      operation_id = none;
    })
    else if is_in_flight w.provisioning_phase
    then ok (record { power = p; outcome = RuntimeIntentOutcome.failed; operation_id = none })
    else if not (has_existing_binding w)
    then ok (record {
      power = p;
      outcome = RuntimeIntentOutcome.first_provision_required;
      operation_id = none;
    })
    else if not (is_idle p.runtime_operation_state)
    then join
    else ok (start_operation settings fresh now p)

abbrev pub find_intent : ℕ → ℕ → Tables → Option RuntimeIntent
find_intent k key s = find_first (λ i. i.workspace_id == k && i.idempotency_key == key) s.intents

abbrev pub find_workspace : ℕ → Tables → Option Waked
find_workspace k s = find_first (λ w. w.workspace.id == k) s.workspaces

-- `_create_intent`, with the constraints of the table, after the workspace was saved.
unfoldable pub create_intent :
    RuntimeIntent → Power → Tables → Result (Tables × RuntimeIntentReceipt)
create_intent i power s = do
  refuse (is_some (find_intent i.workspace_id i.idempotency_key s)) conflict
  ensure (ltb i.received_at i.expires_at && leb i.expires_at i.delete_after) conflict
  ok (
    record {
      workspaces =
          update_where (λ w. w.workspace.id == i.workspace_id) (λ w. record w { power = power })
            s.workspaces;
      intents = s.intents ++ i ∷ [];
    },
    record { status = i.outcome; operation_id = i.coalesced_operation_id; replayed = false },
  )

unfoldable pub replay_intent :
    RuntimeIntent → RuntimeIntentType → Tables → Result (Tables × RuntimeIntentReceipt)
unfolding same_type
replay_intent i type s = do
  ensure (same_type i.intent_type type) idempotency_conflict
  ok (s, record { status = i.outcome; operation_id = i.coalesced_operation_id; replayed = true })

abbrev pub new_intent : WakeSettings → Waked → ℕ → RuntimeIntentType → ℕ → Answer → RuntimeIntent
new_intent settings row key type received answer = record {
  workspace_id = row.workspace.id;
  idempotency_key = key;
  intent_type = type;
  received_at = received;
  expires_at = received + settings.intent_ttl;
  delete_after = received + settings.intent_retention;
  outcome = answer.outcome;
  coalesced_operation_id = answer.operation_id;
}

-- `_request_runtime_intent_once` where no intent has the key.
unfoldable pub accept_intent :
    WakeSettings
    → ℕ
    → ℕ
    → ℕ
    → RuntimeIntentType
    → ℕ
    → Waked
    → Tables
    → Result (Tables × RuntimeIntentReceipt)
unfolding answer_intent create_intent
accept_intent settings fresh now key type received_at row s =
    let skewed = ltb (now + seconds 5) received_at in
    let received = if skewed then now else received_at in
    answer_intent settings fresh received now skewed row.workspace row.power s.intents >>= λ answer.
    create_intent (new_intent settings row key type received answer) answer.power s

-- `request_runtime_intent`, within its retry.
unfoldable pub request_runtime_intent :
    WakeSettings
    → ℕ
    → ℕ
    → ℕ
    → ℕ
    → RuntimeIntentType
    → ℕ
    → Tables
    → Result (Tables × RuntimeIntentReceipt)
unfolding replay_intent accept_intent
request_runtime_intent settings fresh now k key type received_at s = do
  row ← or_raise (find_workspace k s) not_found
  elim (find_intent row.workspace.id key s) [
    | none ↦ accept_intent settings fresh now key type received_at row s
    | some i ↦ replay_intent i type s
  ]
