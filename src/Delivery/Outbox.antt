-- ===== src/Delivery/Outbox.antt =====
-- The transactions over the outbox table (backend/runtime/services/event_delivery.py). A service
-- returns the new table; where it raises, the transaction is rolled back and there is none.
use allies_foundry.Base.{
  ℕ, Bool, ◌&&◌, ◌||◌, Option, none, some, List, [], ◌∷◌, ltb, leb, ◌==◌, text_eq, take, select,
  find_first, update_where, length, Result, ok, ◌>>=◌, ◌>>◌, ensure, or_raise, validation, conflict,
  does_not_exist, opt_le,
}
use allies_foundry.Delivery.Row.{
  Row, pending, is_pending, is_delivering, create, max_delivery_attempts,
}
use allies_foundry.Delivery.Repair.{Wire, Envelope, transition_to_repair}
use allies_foundry.Delivery.Marking.{Outcome, claim_row, mark_row, defer_row}

abbrev pub Table : Type 0
Table = List Row

abbrev pub store : Row → Table → Table
store r table = update_where (λ x. x.id == r.id) (λ _. r) table

abbrev pub find_row : ℕ → Table → Option Row
find_row k table = find_first (λ x. x.id == k) table

pub record EventDeliveryClaim : Type 0 where
  pub delivery_id : ℕ
  pub envelope_bytes : List ℕ
  pub attempt : ℕ
  pub repair_cycle : ℕ

abbrev pub claim_of : Row → EventDeliveryClaim
claim_of r = record {
  delivery_id = r.id;
  envelope_bytes = r.envelope_bytes;
  attempt = r.delivery_attempts;
  repair_cycle = r.repair_cycle;
}

-- The filter of `expired_final_rows`.
abbrev pub is_spent : ℕ → Row → Bool
is_spent observed_at r =
    is_delivering r.state
    && r.delivery_attempts == max_delivery_attempts
    && opt_le r.lease_expires_at observed_at

-- The filter of `rows`.
abbrev pub is_due : ℕ → Row → Bool
is_due observed_at r =
    leb r.next_attempt_at observed_at
    && ltb r.delivery_attempts max_delivery_attempts
    && (is_pending r.state || is_delivering r.state && opt_le r.lease_expires_at observed_at)

unfoldable pub repair_rows : Wire → ℕ → List Row → Table → Result Table
repair_rows w observed_at [] table = ok table
repair_rows w observed_at (r ∷ rs) table = do
  moved ← transition_to_repair w r r observed_at "delivery_lease_expired"
  repair_rows w observed_at rs (store moved.0 table)

unfoldable pub claim_rows : ℕ → List Row → Table → Result (Table × List EventDeliveryClaim)
claim_rows observed_at [] table = ok (table, [])
claim_rows observed_at (r ∷ rs) table = do
  saved ← claim_row observed_at r
  rest ← claim_rows observed_at rs (store saved table)
  ok (rest.0, claim_of saved ∷ rest.1)

-- `order` is the database's `ORDER BY next_attempt_at, created_at, id`.
unfoldable pub claim_event_deliveries :
    Wire → (List Row → List Row) → ℕ → ℕ → Table → Result (Table × List EventDeliveryClaim)
claim_event_deliveries w order limit observed_at table = do
  ensure (leb 1 limit && leb limit 20) validation
  repaired ←
      repair_rows w observed_at (take limit (order (select (is_spent observed_at) table))) table
  claim_rows observed_at (take limit (order (select (is_due observed_at) repaired))) repaired

-- The row of the result goes back into the table.
unfoldable pub keep_row : Table → Option Row → Table × Option Row
keep_row table none = (table, none)
keep_row table (some r) = (store r table, some r)

unfoldable pub mark_event_delivery :
    Wire → ℕ → ℕ → ℕ → Outcome → ℕ → ℕ → Table → Result (Table × Option Row)
unfolding keep_row
mark_event_delivery w delivery_id attempt cycle outcome observed_at jitter table = do
  row ← or_raise (find_row delivery_id table) does_not_exist
  marked ← mark_row w row attempt cycle outcome observed_at jitter
  ok (keep_row table marked)

unfoldable pub deferred_row : Option Row → ℕ → ℕ → ℕ → Result (Option Row)
deferred_row none attempt cycle observed_at = ok none
deferred_row (some row) attempt cycle observed_at = defer_row row attempt cycle observed_at

unfoldable pub defer_for_sequence_gap : EventDeliveryClaim → ℕ → Table → Result (Table × Option Row)
unfolding keep_row deferred_row
defer_for_sequence_gap claim observed_at table = do
  deferred ←
      deferred_row (find_row claim.delivery_id table) claim.attempt claim.repair_cycle observed_at
  ok (keep_row table deferred)

-- The rows that `_wake_attempt_successors` releases behind `row`.
unfoldable pub is_waiting_behind : Wire → Row → ℕ → Row → Bool
is_waiting_behind w row observed_at r =
    w.attempt_of r.event_id == w.attempt_of row.event_id
    && ltb (w.sequence_of row.event_id) (w.sequence_of r.event_id)
    && is_pending r.state
    && text_eq r.safe_error_code "sequence_gap"
    && ltb observed_at r.next_attempt_at

unfoldable pub wake_attempt_successors : Wire → Row → ℕ → Table → Table
wake_attempt_successors w row observed_at =
    update_where (is_waiting_behind w row observed_at)
      λ r. record r { next_attempt_at = observed_at }

unfoldable pub existing_or_new :
    Wire → ℕ → ℕ → ℕ → Envelope → Table → Option Row → Result (Table × Option Row)
existing_or_new w event_id new_id created_at envelope table (some existing) = do
  ensure (text_eq existing.fingerprint envelope.fingerprint) conflict
  ok (table, some existing)
existing_or_new w event_id new_id created_at envelope table none = do
  row ← create (record {
    id = new_id;
    event_id = event_id;
    envelope_bytes = envelope.encoded;
    byte_length = length envelope.encoded;
    fingerprint = envelope.fingerprint;
    state = pending;
    repair_cycle = 0;
    delivery_attempts = 0;
    lease_expires_at = none;
    next_attempt_at = created_at;
    safe_error_code = "";
    delivered_at = none;
    sequence_gap_since = none;
    created_at = created_at;
  })
  ok (row ∷ table, some row)

unfoldable pub enqueue_built :
    Wire → ℕ → ℕ → ℕ → Table → Option Envelope → Result (Table × Option Row)
unfolding existing_or_new
enqueue_built w event_id new_id created_at table none = ok (table, none)
enqueue_built w event_id new_id created_at table (some envelope) =
    existing_or_new w event_id new_id created_at envelope table
      (find_first (λ r. r.event_id == event_id) table)

-- `new_id` is the fresh primary key, `created_at` the time of the event.
unfoldable pub enqueue_event_delivery : Wire → ℕ → ℕ → ℕ → Table → Result (Table × Option Row)
unfolding enqueue_built
enqueue_event_delivery w event_id new_id created_at table =
    w.build_event_envelope event_id >>= enqueue_built w event_id new_id created_at table
