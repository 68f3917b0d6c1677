-- ===== src/Delivery/Examples.antt =====
-- Runs of the outbox on concrete rows, and the theorems of this component applied to them.
use allies_foundry.Base.{
  ℕ, ◌+◌, ◌*◌, ◌≤◌, ◌^◌, ◌-◌, min, String, ◌≡◌, ◌≢◌, refl, Bool, true, false, ◌&&◌, ◌||◌, none,
  some, List, [], ◌∷◌, inr, arith, leb, All, ok, err, validation, every, bytes_eq, find_first,
  update_where,
}
use allies_foundry.Delivery.Row.{
  Row, pending, delivering, delivered, exhausted, seconds, save, create, code_pattern,
  fingerprint_pattern,
}
use allies_foundry.Delivery.Repair.{Wire, is_safe_error_code}
use allies_foundry.Delivery.Marking.{
  success, failure, claim_row, mark_row, settle, defer_row, backoff,
}
use allies_foundry.Delivery.Outbox.{
  EventDeliveryClaim, claim_of, claim_rows, repair_rows, claim_event_deliveries,
  mark_event_delivery, enqueue_event_delivery, wake_attempt_successors, is_waiting_behind,
}
use allies_foundry.Delivery.Redrive.{redrive_row}
use allies_foundry.Delivery.Publisher.{
  Answer, DeliveryReport, publish_claim, publish_claims, publish_pending_event_deliveries,
}
use allies_foundry.Delivery.Validity.{IsValid}
use allies_foundry.Delivery.Invariant.{AllValid, Selects}
use allies_foundry.Delivery.History.{enqueued, claimed, marked, here, next, History-AllValid}
use allies_foundry.Delivery.Exclusion.{claims_exclusive}
use allies_foundry.Delivery.Budget.{Life, claims_bounded}
use allies_foundry.Delivery.Accounting.{publish-IsAccounted}
use allies_foundry.Delivery.Acceptance.{
  failure_row, mark_row-failure_total, mark_row-failure_raises,
}
use allies_foundry.Delivery.Fencing.{RowLife, IsFenced, reclaim_fences, redrive_fences}
use allies_foundry.Delivery.Timing.{backoff_bounds, defer_row-patience}

abbrev lower : ℕ → Bool
lower c = leb b'a' c && leb c b'z'

abbrev alnum : ℕ → Bool
alnum c = lower c || leb b'A' c && leb c b'Z' || leb b'0' c && leb c b'9'

abbrev print : String
print = "canonical-json-sha256:v1:0123456789abcdef0123456789abcdef0123456789abcdef0123456789abcdef"

abbrev wire : Wire
wire = record {
  retained = λ _. true;
  build_event_envelope = λ _. ok (some (record { encoded = 123 ∷ 125 ∷ []; fingerprint = print }));
  attempt_of = λ _. 7;
  sequence_of = λ k. k;
  public_id = λ k. k + 100;
  is_lower = lower;
  is_alnum = alnum;
}

abbrev as_stored : List Row → List Row
as_stored rows = rows

as_stored-Selects : Selects as_stored
as_stored-Selects P rows h = h

-- A row as `enqueue_event_delivery` creates it.
abbrev fresh : ℕ → ℕ → Row
fresh k due = record {
  id = k;
  event_id = k;
  envelope_bytes = 123 ∷ 125 ∷ [];
  byte_length = 2;
  fingerprint = print;
  state = pending;
  repair_cycle = 0;
  delivery_attempts = 0;
  lease_expires_at = none;
  next_attempt_at = due;
  safe_error_code = "";
  delivered_at = none;
  sequence_gap_since = none;
  created_at = due;
}

abbrev held : Row → ℕ → Row
held r t = record r {
  state = delivering;
  delivery_attempts = r.delivery_attempts + 1;
  lease_expires_at = some (t + seconds 60);
}

enqueue_fresh : enqueue_event_delivery wire 1 1 10 [] ≡ ok (fresh 1 10 ∷ [], some (fresh 1 10))
unfolding enqueue_event_delivery fingerprint_pattern create find_first
enqueue_fresh = refl

claim_fresh :
    claim_event_deliveries wire as_stored 20 100 (fresh 1 10 ∷ fresh 2 500 ∷ [])
    ≡ ok (held (fresh 1 10) 100 ∷ fresh 2 500 ∷ [], claim_of (held (fresh 1 10) 100) ∷ [])
unfolding claim_event_deliveries repair_rows claim_rows claim_row save create fingerprint_pattern
    bytes_eq update_where
claim_fresh = refl

abbrev delivered_row : Row
delivered_row = record (held (fresh 1 10) 100) {
  state = delivered;
  delivered_at = some 200;
  lease_expires_at = none;
  envelope_bytes = [];
  byte_length = 0;
}

claim_one :
    claim_event_deliveries wire as_stored 20 100 (fresh 1 10 ∷ [])
    ≡ ok (held (fresh 1 10) 100 ∷ [], claim_of (held (fresh 1 10) 100) ∷ [])
unfolding claim_event_deliveries repair_rows claim_rows claim_row save create fingerprint_pattern
    bytes_eq update_where
claim_one = refl

mark_one :
    mark_event_delivery wire 1 1 0 success 200 0 (held (fresh 1 10) 100 ∷ [])
    ≡ ok (delivered_row ∷ [], some delivered_row)
unfolding mark_event_delivery mark_row settle save create fingerprint_pattern bytes_eq update_where
    find_first
mark_one = refl

History-AllValid_example : AllValid (delivered_row ∷ [])
History-AllValid_example = History-AllValid as_stored as_stored-Selects (
    next
      (next (next here (enqueued wire 1 1 10 (some (fresh 1 10)) enqueue_fresh))
        (claimed wire 20 100 (claim_of (held (fresh 1 10) 100) ∷ []) claim_one))
      (marked wire 1 1 0 success 200 0 (some delivered_row) mark_one))

claim_next :
    claim_event_deliveries wire as_stored 20 600 (held (fresh 1 10) 100 ∷ fresh 2 500 ∷ [])
    ≡ ok (
      held (fresh 1 10) 100 ∷ held (fresh 2 500) 600 ∷ [],
      claim_of (held (fresh 2 500) 600) ∷ [],
    )
unfolding claim_event_deliveries repair_rows claim_rows claim_row save create fingerprint_pattern
    bytes_eq update_where
claim_next = refl

-- A second event was enqueued between the calls.
claims_exclusive_example :
    All
      (λ (c : EventDeliveryClaim).
        c.delivery_id ≡ 1
        → All
            (λ (c' : EventDeliveryClaim). c'.delivery_id ≢ 1)
            (claim_of (held (fresh 2 500) 600) ∷ []))
      (claim_of (held (fresh 1 10) 100) ∷ [])
claims_exclusive_example =
    claims_exclusive wire wire as_stored 20 20 100 600 1 (fresh 1 10 ∷ [])
      (held (fresh 1 10) 100 ∷ []) (held (fresh 1 10) 100 ∷ fresh 2 500 ∷ [])
      (held (fresh 1 10) 100 ∷ held (fresh 2 500) 600 ∷ []) (claim_of (held (fresh 1 10) 100) ∷ [])
      (claim_of (held (fresh 2 500) 600) ∷ []) as_stored-Selects claim_one refl claim_next
      (omega arith)

claim_row-fresh : claim_row 100 (fresh 1 10) ≡ ok (held (fresh 1 10) 100)
unfolding claim_row save create fingerprint_pattern bytes_eq
claim_row-fresh = refl

claims_bounded_example : 1 ≤ 32
claims_bounded_example =
    claims_bounded (fresh 1 10) (held (fresh 1 10) 100) 1 refl refl refl
      (Life.claimed 100 Life.born refl claim_row-fresh)

-- Cloud accepts every claim.
abbrev post : EventDeliveryClaim → Answer
post claim = record {
  wire = wire;
  status = 202;
  code = "";
  gap_at = 150;
  mark_at = 200;
  wake_at = 250;
  jitter = 0;
  before_gap = λ table. table;
  before_mark = λ table. table;
  before_wake = λ table. table;
}

abbrev one_delivered : DeliveryReport
one_delivered = record {
  claimed = 1;
  delivered = 1;
  deferred = 0;
  exhausted = 0;
  repair_pending = 0;
  recovered = 0;
}

publish_one :
    publish_pending_event_deliveries wire as_stored post true 20 100 (fresh 1 10 ∷ [])
    ≡ ok (delivered_row ∷ [], one_delivered)
unfolding publish_pending_event_deliveries publish_claims publish_claim mark_event_delivery mark_row
    settle claim_event_deliveries repair_rows claim_rows claim_row save create fingerprint_pattern
    bytes_eq update_where find_first wake_attempt_successors is_waiting_behind
publish_one = refl

publish-IsAccounted_example :
    (one_delivered.delivered + one_delivered.deferred + one_delivered.exhausted
      ≡ one_delivered.claimed)
    × (one_delivered.claimed ≤ 20)
publish-IsAccounted_example =
    publish-IsAccounted wire as_stored post true 20 100 (fresh 1 10 ∷ []) (delivered_row ∷ [])
      one_delivered publish_one

held-IsValid : IsValid (held (fresh 1 10) 100)
unfolding fingerprint_pattern
held-IsValid = record {
  storable = record {
    length_exact = refl;
    bounded = omega arith;
    kept = λ _. omega arith;
    fingerprint_form = refl;
    code_form = refl;
    attempts_bounded = omega arith;
  };
  live = record {
    erased = λ e. cc;
    leased = refl;
    pending_budget = λ e. cc;
    delivering_claimed = λ _. omega arith;
  };
}

mark_row-failure_total_example :
    mark_row wire (held (fresh 1 10) 100) 1 0 (failure "server_error" false) 200 0
    ≡ ok (some (failure_row (held (fresh 1 10) 100) "server_error" false (200 + backoff 1 0)))
unfolding is_safe_error_code code_pattern every
mark_row-failure_total_example =
    mark_row-failure_total wire (held (fresh 1 10) 100) 1 0 "server_error" false 200 0 held-IsValid
      refl refl refl refl (inr (omega arith))

-- The code `rateLimited` has a capital letter.
mark_row-failure_raises_example :
    mark_row wire (held (fresh 1 10) 100) 1 0 (failure "rateLimited" false) 200 0 ≡ err validation
unfolding is_safe_error_code code_pattern every
mark_row-failure_raises_example =
    mark_row-failure_raises wire (held (fresh 1 10) 100) 1 0 "rateLimited" false 200 0 refl refl
      refl refl (inr (omega arith))

-- The lease of the first claim ran out, and the row was claimed again.
abbrev reclaimed : Row
reclaimed = held (held (fresh 1 10) 100) 70000000

reclaim_held : claim_row 70000000 (held (fresh 1 10) 100) ≡ ok reclaimed
unfolding claim_row save create fingerprint_pattern bytes_eq
reclaim_held = refl

reclaim_fences_example : IsFenced wire reclaimed 1 0
reclaim_fences_example =
    reclaim_fences wire (held (fresh 1 10) 100) reclaimed reclaimed 70000000 reclaim_held
      RowLife.here

abbrev parked : Row
parked = record (held (fresh 1 10) 100) {
  state = exhausted;
  lease_expires_at = none;
  envelope_bytes = [];
  byte_length = 0;
  safe_error_code = "conflict";
}

abbrev redriven_row : Row
redriven_row = record (fresh 1 10) {
  repair_cycle = 1;
  next_attempt_at = 900;
  safe_error_code = "manual_redrive";
}

redrive_parked : redrive_row 900 parked (123 ∷ 125 ∷ []) ≡ ok redriven_row
unfolding redrive_row save create fingerprint_pattern bytes_eq code_pattern every
redrive_parked = refl

redrive_fences_example : IsFenced wire redriven_row 1 0
redrive_fences_example =
    redrive_fences wire parked redriven_row redriven_row 900 1 0 (123 ∷ 125 ∷ []) redrive_parked
      (omega arith) RowLife.here

backoff_bounds_example :
    let base = min 300 (2 ^ (3 - 1)) in
    (seconds 1 ≤ backoff 3 500000)
    × (seconds base ≤ backoff 3 500000)
    × (4 * backoff 3 500000 ≤ 5 * seconds base)
    × (backoff 3 500000 ≤ seconds 375)
backoff_bounds_example = backoff_bounds 3 500000 (omega arith)

abbrev waiting : Row
waiting = record (fresh 1 10) {
  next_attempt_at = 15000200;
  safe_error_code = "sequence_gap";
  sequence_gap_since = some 200;
}

defer_held : defer_row (held (fresh 1 10) 100) 1 0 200 ≡ ok (some waiting)
unfolding defer_row save create fingerprint_pattern bytes_eq code_pattern every
defer_held = refl

defer_row-patience_example :
    (g : ℕ) × (waiting.sequence_gap_since ≡ some g)
    × ((g' : ℕ) → (held (fresh 1 10) 100).sequence_gap_since ≡ some g' → g' ≡ g)
    × (200 ≤ g + seconds 1800)
    × (waiting.delivery_attempts + 1 ≡ (held (fresh 1 10) 100).delivery_attempts)
    × (waiting.next_attempt_at ≡ 200 + seconds 15)
    × (waiting.state ≡ pending)
    × (waiting.envelope_bytes ≡ (held (fresh 1 10) 100).envelope_bytes)
defer_row-patience_example =
    defer_row-patience (held (fresh 1 10) 100) waiting 1 0 200 held-IsValid defer_held
