-- ===== src/Events/Expiry.antt =====
-- `_append_lease_expired_failure` of backend/runtime/services/events.py: the failure that the server
-- appends for an attempt whose lease has run out.
use allies_foundry.Base.{
  ℕ, ◌+◌, String, Bool, ◌&&◌, none, some, is_some, ◌∷◌, ltb, ◌==◌, text_eq, find_first, Result, ok,
  ◌>>=◌, ◌>>◌, ensure, refuse, validation, conflict,
}
use allies_foundry.Models.{Store, Attempt, Lease, ExecutionEvent, Payload, is_unresolved}
use allies_foundry.Delivery.Repair.{Wire}
use allies_foundry.Events.Append.{
  Fresh, find_event, latest_sequence, stored_digest, with_digest, save_event, enqueue,
  max_terminal_sequence,
}

-- The identity `uuid5(…)` and the stream of the event of an attempt, and its payload.
pub record Expiry : Type 0 where
  pub event_id : ℕ → ℕ
  pub stream_id : ℕ → String
  pub payload : Payload

-- `_ensure_exact_replay` on the stored sequence number.
unfoldable pub same_failure : Expiry → ExecutionEvent → Attempt → Bool
same_failure x e attempt =
    text_eq e.event_type "execution.failed"
    && text_eq e.stream_id (x.stream_id attempt.id)
    && stored_digest e == x.payload.digest

unfoldable pub failure_event : Expiry → Fresh → Attempt → ℕ → ℕ → ExecutionEvent
failure_event x ids attempt sequence now = record {
  id = ids.event;
  attempt_id = attempt.id;
  event_id = x.event_id attempt.id;
  stream_id = x.stream_id attempt.id;
  sequence = sequence;
  event_type = "execution.failed";
  payload = x.payload;
  payload_digest = some x.payload.digest;
  created_at = now;
}

unfoldable pub replay_failure :
    (Store → Wire)
    → Expiry
    → Fresh
    → Attempt
    → ExecutionEvent
    → Store
    → Result (Store × ExecutionEvent)
unfolding same_failure enqueue
replay_failure w x ids attempt existing store = do
  ensure (same_failure x existing attempt) conflict
  queued ← enqueue w ids.delivery (with_digest existing) (save_event (with_digest existing) store)
  ok (queued, with_digest existing)

-- A key that is not fresh is an `IntegrityError`, which stands as `conflict`.
unfoldable pub insert_failure :
    (Store → Wire) → Expiry → Fresh → Attempt → ℕ → Store → Result (Store × ExecutionEvent)
unfolding failure_event enqueue latest_sequence
insert_failure w x ids attempt now store = do
  let sequence = latest_sequence attempt.id store.events + 1
  refuse (ltb max_terminal_sequence sequence) conflict
  refuse (is_some (find_first (λ e. e.id == ids.event) store.events)) conflict
  queued ←
      enqueue w ids.delivery (failure_event x ids attempt sequence now)
        (record store { events = failure_event x ids attempt sequence now ∷ store.events })
  ok (queued, failure_event x ids attempt sequence now)

unfoldable pub append_lease_expired_failure :
    (Store → Wire) → Expiry → Fresh → Attempt → Lease → ℕ → Store → Result (Store × ExecutionEvent)
unfolding replay_failure insert_failure
append_lease_expired_failure w x ids attempt lease now store = do
  ensure (lease.attempt_id == attempt.id && is_unresolved lease.state) validation
  refuse (ltb now lease.expires_at) validation
  elim (find_event attempt.id (x.event_id attempt.id) store) [
    | some existing ↦ replay_failure w x ids attempt existing store
    | none ↦ insert_failure w x ids attempt now store
  ]
