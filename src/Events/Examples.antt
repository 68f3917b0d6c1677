-- ===== src/Events/Examples.antt =====
-- Events of a concrete attempt, and the theorems of this component applied to them.
use allies_foundry.Base.{◌≡◌, ◌≢◌, refl, none, some, false, [], ◌∷◌, ok, find_first, every, arith}
use allies_foundry.Models.{Store, LeaseState, ExecutionEvent, Payload, other}
use allies_foundry.Delivery.Row.{
  Row, pending, create, fingerprint_pattern, after_prefix, is_hex, is_digit,
}
use allies_foundry.Delivery.Outbox.{enqueue_event_delivery, enqueue_built, existing_or_new}
use allies_foundry.Leases.Rows.{validate_token_digest}
use allies_foundry.Leases.Mutation.{authorize, lease_is_current}
use allies_foundry.Samples.{lease, released_lease, store, ids, other_ids, speaking}
use allies_foundry.Events.Append.{
  Append, append_event_once, check_append, maximum_sequence, is_terminal_type, validate_nonempty,
  insert_event, latest_sequence, approval_effect, enqueue, new_event, authorize_replay,
  authorize_released, same_content,
}
use allies_foundry.Events.Expiry.{Expiry}
use allies_foundry.Events.Numbering.{IsNumbered, has_identity}
use allies_foundry.Events.History.{
  appended, elsewhere, History, here, next, History-IsNumbered, Keeps, History-Keeps,
}
use allies_foundry.Events.Replay.{replayed_append, conflicting_append}

abbrev greeting : Payload
greeting = record { digest = 71; size = 40; shape = other }

abbrev says : Append
says = record {
  attempt_id = 4;
  lease_id = 5;
  event_id = 70;
  sequence = 3;
  event_type = "message.delta";
  payload = greeting;
  token_digest = 77;
  machine_generation = 6;
  stream_id = "stream";
  allow_reserved = false;
}

-- The same identity with another text.
abbrev says_other : Append
says_other = record says { payload = record greeting { digest = 72 } }

abbrev said : ExecutionEvent
said = record {
  id = 80;
  attempt_id = 4;
  event_id = 70;
  stream_id = "stream";
  sequence = 3;
  event_type = "message.delta";
  payload = greeting;
  payload_digest = some 71;
  created_at = 100;
}

abbrev queued : Row
queued = record {
  id = 81;
  event_id = 80;
  envelope_bytes = 123 ∷ [];
  byte_length = 1;
  fingerprint =
      "canonical-json-sha256:v1:0123456789abcdef0123456789abcdef0123456789abcdef0123456789abcdef";
  state = pending;
  repair_cycle = 0;
  delivery_attempts = 0;
  lease_expires_at = none;
  next_attempt_at = 100;
  safe_error_code = "";
  delivered_at = none;
  sequence_gap_since = none;
  created_at = 100;
}

abbrev logged : Store
logged = record store { events = said ∷ []; outbox = queued ∷ [] }

appends : append_event_once speaking ids says 100 store ≡ ok (logged, said)
unfolding append_event_once check_append maximum_sequence is_terminal_type validate_nonempty
    insert_event latest_sequence approval_effect enqueue new_event enqueue_event_delivery
    enqueue_built existing_or_new create fingerprint_pattern after_prefix is_hex is_digit authorize
    lease_is_current validate_token_digest find_first every
appends = refl

logged-IsNumbered : IsNumbered logged.events
unfolding latest_sequence find_first
logged-IsNumbered = (record { follows = omega arith; new_identity = refl; new_key = refl }, tt)

-- The lease has been released since.
abbrev ended : Store
ended = record logged {
  leases = released_lease ∷ record lease { state = LeaseState.released } ∷ [];
}

allowed : authorize_replay says 900 ended ≡ ok tt
unfolding authorize_replay authorize_released authorize lease_is_current validate_token_digest
    find_first
allowed = refl

replayed_append_example : append_event_once speaking other_ids says 900 ended ≡ ok (ended, said)
replayed_append_example =
    replayed_append speaking ids other_ids says 100 900 store logged ended said logged-IsNumbered
      appends refl refl refl allowed

abbrev failures : Expiry
failures = record { event_id = λ k. 1000; stream_id = λ k. "stream"; payload = greeting }

abbrev from_start : History speaking failures store ended
from_start = next (next here (appended ids says 100 said appends)) (elsewhere refl)

abbrev since : History speaking failures logged ended
since = next here (elsewhere refl)

differs : same_content said says_other ≡ false
unfolding same_content
differs = refl

conflicting_append_example :
    append_event_once speaking other_ids says_other 900 ended ≢ ok (ended, said)
conflicting_append_example =
    conflicting_append speaking failures ids other_ids says says_other 100 900 store logged ended
      said (ended, said) logged-IsNumbered appends since refl refl differs

History-IsNumbered_example : IsNumbered ended.events
History-IsNumbered_example = History-IsNumbered speaking failures store ended from_start tt

identified : find_first (has_identity 4 70) logged.events ≡ some said
unfolding find_first
identified = refl

History-Keeps_example : Keeps 4 70 said ended.events
History-Keeps_example =
    History-Keeps speaking failures 4 70 said logged ended since logged-IsNumbered identified
