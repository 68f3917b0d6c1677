-- ===== src/Events/Append.antt =====
-- The append of an event, `_append_event_once` and `append_runtime_event` of
-- backend/runtime/services/events.py.
use allies_foundry.Base.{
  ℕ, ◌*◌, max, String, Bool, true, false, ◌&&◌, ◌||◌, not, Option, none, some, is_some, List, [],
  ◌∷◌, ltb, leb, ◌==◌, if◌then◌else◌, text_eq, codes, length, find_first, update_where, Result, ok,
  err, ◌>>=◌, ◌>>◌, ensure, refuse, or_raise, validation, conflict, authorization, lease_conflict,
  does_not_exist,
}
use allies_foundry.Models.{
  Store, Attempt, LeaseState, ExecutionEvent, Payload, Shape, plain, resolution, RuntimeContext,
  is_live,
}
use allies_foundry.Delivery.Repair.{Wire}
use allies_foundry.Delivery.Outbox.{enqueue_event_delivery}
use allies_foundry.Approvals.Service.{
  find_workspace, find_execution, find_lease, apply_approval_resolution,
}
use allies_foundry.Approvals.Creation.{record_approval_request_from_event}
use allies_foundry.Leases.Rows.{lock_rows}
use allies_foundry.Leases.Mutation.{authorize}

-- What a caller sends. `allow_reserved` is `allow_reserved_terminal_sequence`.
pub record Append : Type 0 where
  pub attempt_id : ℕ
  pub lease_id : ℕ
  pub event_id : ℕ
  pub sequence : ℕ
  pub event_type : String
  pub payload : Payload
  pub token_digest : ℕ
  pub machine_generation : ℕ
  pub stream_id : String
  pub allow_reserved : Bool

-- The keys that a transaction draws for a new event and for its row of the outbox.
pub record Fresh : Type 0 where
  pub event : ℕ
  pub delivery : ℕ

-- `event_type in _TERMINAL_EVENT_TYPES`.
unfoldable pub is_terminal_type : String → Bool
is_terminal_type t =
    text_eq t "execution.completed" || text_eq t "execution.failed" || text_eq t "execution.stopped"

abbrev pub max_terminal_sequence : ℕ
max_terminal_sequence = 100001

unfoldable pub maximum_sequence : Append → ℕ
unfolding is_terminal_type
maximum_sequence call =
    if call.allow_reserved && is_terminal_type call.event_type
    then max_terminal_sequence
    else 100000

-- `validate_nonempty` of backend/runtime/services/validation.py on a text.
unfoldable pub validate_nonempty : String → ℕ → Result (Unit {0})
validate_nonempty text max_length =
    ensure (leb 1 (length (codes text)) && leb (length (codes text)) max_length) validation

-- The checks that read no row.
unfoldable pub check_append : Append → Result (Unit {0})
unfolding maximum_sequence validate_nonempty
check_append call = do
  refuse (call.sequence == 0 || ltb (maximum_sequence call) call.sequence) validation
  validate_nonempty call.event_type 64
  (if text_eq call.stream_id "" then ok tt else validate_nonempty call.stream_id 255)
  ensure (leb call.payload.size (16 * 1024)) validation

-- The largest sequence number of an attempt, 0 where there is none; stored ones are positive.
unfoldable pub latest_sequence : ℕ → List ExecutionEvent → ℕ
latest_sequence attempt_id [] = 0
latest_sequence attempt_id (e ∷ es) =
    let rest = latest_sequence attempt_id es in
    if e.attempt_id == attempt_id then max e.sequence rest else rest

abbrev pub find_event : ℕ → ℕ → Store → Option ExecutionEvent
find_event attempt_id event_id store =
    find_first (λ e. e.attempt_id == attempt_id && e.event_id == event_id) store.events

-- `_authorize_released_event_replay`.
unfoldable pub authorize_released : Append → Store → Result (Unit {0})
authorize_released call store = do
  attempt ← or_raise (find_first (λ a. a.id == call.attempt_id) store.attempts) authorization
  lease ←
      or_raise
        (find_first (λ l. l.id == call.lease_id && l.attempt_id == call.attempt_id) store.leases)
        authorization
  execution ← or_raise (find_execution attempt.execution_id store) does_not_exist
  workspace ← or_raise (find_workspace execution.workspace_id store) does_not_exist
  ensure
      (lease.token_digest == call.token_digest
        && (elim lease.state [ LeaseState.released ↦ true | _ ↦ false ])
        && lease.machine_generation == call.machine_generation
        && workspace.machine_generation == call.machine_generation)
      authorization

-- The authorization of a replay: by the lease, or by the lease that was released.
unfoldable pub authorize_replay : Append → ℕ → Store → Result (Unit {0})
unfolding authorize_released
authorize_replay call now store =
    elim (authorize call.attempt_id call.lease_id call.token_digest call.machine_generation now
      store) [ ok a ↦ ok tt | err authorization ↦ authorize_released call store | err e ↦ err e ]

-- `_stored_payload_digest`, and the event with it.
abbrev pub stored_digest : ExecutionEvent → ℕ
stored_digest e = elim e.payload_digest [ none ↦ e.payload.digest | some d ↦ d ]

abbrev pub with_digest : ExecutionEvent → ExecutionEvent
with_digest e = record e { payload_digest = some (stored_digest e) }

-- The test of `_ensure_exact_replay`.
unfoldable pub same_content : ExecutionEvent → Append → Bool
same_content e call =
    e.sequence == call.sequence
    && text_eq e.event_type call.event_type
    && text_eq e.stream_id call.stream_id
    && stored_digest e == call.payload.digest

abbrev pub save_event : ExecutionEvent → Store → Store
save_event e store = record store {
  events = update_where (λ x. x.id == e.id) (λ _. e) store.events;
}

-- The wire forms as a transaction finds them, which reads the execution, the attempt and the event,
-- and no row of the outbox.
abbrev pub seen : (Store → Wire) → Store → Wire
seen w store = w (record store { outbox = [] })

-- `_enqueue_event_delivery`, an event in, the store with its row of the outbox out.
unfoldable pub enqueue : (Store → Wire) → ℕ → ExecutionEvent → Store → Result Store
enqueue w delivery e store = do
  done ← enqueue_event_delivery (seen w store) e.id delivery e.created_at store.outbox
  ok (record store { outbox = done.0 })

-- What an event with the identity of a stored one ends in.
unfoldable pub replay_event :
    (Store → Wire) → Fresh → Append → ExecutionEvent → ℕ → Store → Result (Store × ExecutionEvent)
unfolding authorize_replay same_content enqueue
replay_event w ids call existing now store = do
  authorize_replay call now store
  ensure (same_content existing call) conflict
  queued ← enqueue w ids.delivery (with_digest existing) (save_event (with_digest existing) store)
  ok (queued, with_digest existing)

unfoldable pub new_event : Fresh → Append → ℕ → ExecutionEvent
new_event ids call now = record {
  id = ids.event;
  attempt_id = call.attempt_id;
  event_id = call.event_id;
  stream_id = call.stream_id;
  sequence = call.sequence;
  event_type = call.event_type;
  payload = call.payload;
  payload_digest = some call.payload.digest;
  created_at = now;
}

abbrev pub is_plain : Shape → Bool
is_plain plain = true
is_plain _ = false

-- `apply_approval_resolution` on the keys of the payload; a key that is missing is a `KeyError`,
-- which stands as `validation`.
unfoldable pub resolve : Attempt → Shape → ℕ → Store → Result Store
resolve attempt (resolution approval_request_id outcome) now store = do
  done ← apply_approval_resolution attempt.id approval_request_id outcome now now store
  ok done.0
resolve attempt shape now store = err validation

-- What the two types of event that concern an approval do besides.
unfoldable pub approval_effect : Attempt → Append → ℕ → Store → Result Store
unfolding resolve
approval_effect attempt call now store =
    if text_eq call.event_type "execution.awaiting_action" && not (is_plain call.payload.shape)
    then (do
      done ← record_approval_request_from_event attempt call.payload.shape now store
      ok done.0)
    else if text_eq call.event_type "execution.approval_resolved"
    then resolve attempt call.payload.shape now store
    else ok store

-- What an event of a new identity ends in. The key is fresh, else the insertion fails.
unfoldable pub insert_event :
    (Store → Wire) → Fresh → Append → ℕ → Store → Result (Store × ExecutionEvent)
unfolding approval_effect enqueue latest_sequence
insert_event w ids call now store = do
  attempt ←
      authorize call.attempt_id call.lease_id call.token_digest call.machine_generation now store
  ensure (is_live attempt.status) conflict
  refuse (leb call.sequence (latest_sequence call.attempt_id store.events)) conflict
  refuse
      (is_some (
        find_first (λ e. e.attempt_id == call.attempt_id && e.sequence == call.sequence)
          store.events))
      conflict
  refuse (is_some (find_first (λ e. e.id == ids.event) store.events)) conflict
  affected ←
      approval_effect attempt call now
        (record store { events = new_event ids call now ∷ store.events })
  queued ← enqueue w ids.delivery (new_event ids call now) affected
  ok (queued, new_event ids call now)

-- `_append_event_once`.
unfoldable pub append_event_once :
    (Store → Wire) → Fresh → Append → ℕ → Store → Result (Store × ExecutionEvent)
append_event_once w ids call now store = do
  check_append call
  elim (find_event call.attempt_id call.event_id store) [
    | some existing ↦ replay_event w ids call existing now store
    | none ↦ insert_event w ids call now store
  ]

-- `append_once` of `append_runtime_event`, whose payload `_runtime_event_payload` has checked.
unfoldable pub append_runtime_event :
    (Store → Wire)
    → Fresh
    → RuntimeContext
    → ℕ
    → Append
    → ℕ
    → Store
    → Result (Store × ExecutionEvent)
append_runtime_event w ids context token_digest call now store = do
  locked ← lock_rows (λ _. true) context call.attempt_id store
  lease ← or_raise (find_lease locked.attempt.id store) lease_conflict
  ensure (lease.token_digest == token_digest) lease_conflict
  append_event_once w ids
      (record call {
        lease_id = lease.id;
        token_digest = token_digest;
        machine_generation = context.machine_generation;
        allow_reserved = false;
      })
      now store
