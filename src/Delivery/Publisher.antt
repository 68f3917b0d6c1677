-- ===== src/Delivery/Publisher.antt =====
-- The publisher: `publish_pending_event_deliveries` of
-- backend/runtime/services/event_delivery.py. What Cloud answers to a claim, and when, comes from
-- outside; so does what the other workers do to the table while the publisher waits.
use allies_foundry.Base.{
  ℕ, ◌+◌, String, Bool, true, false, ◌&&◌, ◌||◌, Option, none, some, List, [], ◌∷◌, ltb, ◌==◌,
  if◌then◌else◌, text_eq, length, Result, ok, ◌>>=◌,
}
use allies_foundry.Delivery.Row.{Row, is_pending, is_exhausted}
use allies_foundry.Delivery.Repair.{Wire}
use allies_foundry.Delivery.Marking.{success, failure}
use allies_foundry.Delivery.Outbox.{
  Table, EventDeliveryClaim, claim_event_deliveries, mark_event_delivery, defer_for_sequence_gap,
  wake_attempt_successors,
}

pub record DeliveryReport : Type 0 where
  pub claimed : ℕ
  pub delivered : ℕ
  pub deferred : ℕ
  pub exhausted : ℕ
  pub repair_pending : ℕ
  pub recovered : ℕ

abbrev pub empty_report : DeliveryReport
empty_report = record {
  claimed = 0;
  delivered = 0;
  deferred = 0;
  exhausted = 0;
  repair_pending = 0;
  recovered = 0;
}

-- What the transactions after a claim take from elsewhere, what `_post_to_cloud` returned, the clock at the transactions that follow, the jitter of the
-- backoff, and what other transactions did before each of the two that may follow.
pub record Answer : Type 0 where
  pub wire : Wire
  pub status : ℕ
  pub code : String
  pub gap_at : ℕ
  pub mark_at : ℕ
  pub wake_at : ℕ
  pub jitter : ℕ
  pub before_gap : Table → Table
  pub before_mark : Table → Table
  pub before_wake : Table → Table

abbrev count : Bool → ℕ
count true = 1
count false = 0

-- The counters after a failed mark.
unfoldable pub count_failure : DeliveryReport → Option Row → DeliveryReport
count_failure report none = record report { deferred = report.deferred + 1 }
count_failure report (some row) = record report {
  exhausted = report.exhausted + count (is_exhausted row.state);
  deferred = report.deferred + count (is_pending row.state);
  repair_pending = report.repair_pending + count (is_pending row.state && ltb 0 row.repair_cycle);
}

unfoldable pub publish_success :
    EventDeliveryClaim → Answer → Table × Option Row → DeliveryReport → Table × DeliveryReport
publish_success claim answer (table, none) report =
    (table, record report { deferred = report.deferred + 1 })
publish_success claim answer (table, some marked) report = (
  wake_attempt_successors answer.wire marked answer.wake_at (answer.before_wake table),
  record report {
    delivered = report.delivered + 1;
    recovered = report.recovered + count (ltb 0 claim.repair_cycle);
  },
)

abbrev is_rejected : ℕ → String → Bool
is_rejected status code =
    status == 401
    || status == 403
    || status == 404
    || status == 422
    || status == 409 && text_eq code "conflict"

unfoldable pub publish_failure :
    EventDeliveryClaim → Answer → Table → DeliveryReport → Result (Table × DeliveryReport)
unfolding count_failure
publish_failure claim answer table report = do
  let rejected = is_rejected answer.status answer.code
  let fallback = if rejected then "delivery_rejected" else "delivery_unavailable"
  let code = if text_eq answer.code "" then fallback else answer.code
  marked ←
      mark_event_delivery answer.wire claim.delivery_id claim.attempt claim.repair_cycle
        (failure code rejected) answer.mark_at answer.jitter (answer.before_mark table)
  ok (marked.0, count_failure report marked.1)

unfoldable pub after_deferral :
    EventDeliveryClaim
    → Answer
    → DeliveryReport
    → Table × Option Row
    → Result (Table × DeliveryReport)
unfolding publish_failure
after_deferral claim answer report (table, some row) =
    ok (table, record report { deferred = report.deferred + 1 })
after_deferral claim answer report (table, none) = publish_failure claim answer table report

-- One turn of the loop over the claims.
unfoldable pub publish_claim :
    EventDeliveryClaim → Answer → Table → DeliveryReport → Result (Table × DeliveryReport)
unfolding publish_success publish_failure after_deferral
publish_claim claim answer table report =
    if answer.status == 202
    then (mark_event_delivery answer.wire claim.delivery_id claim.attempt claim.repair_cycle success
          answer.mark_at answer.jitter (answer.before_mark table)
        >>= λ marked. ok (publish_success claim answer marked report))
    else if answer.status == 409 && text_eq answer.code "sequence_gap"
    then (defer_for_sequence_gap claim answer.gap_at (answer.before_gap table)
        >>= after_deferral claim answer report)
    else publish_failure claim answer table report

unfoldable pub publish_claims :
    (EventDeliveryClaim → Answer)
    → List EventDeliveryClaim
    → Table
    → DeliveryReport
    → Result (Table × DeliveryReport)
publish_claims post [] table report = ok (table, report)
publish_claims post (claim ∷ claims) table report =
    publish_claim claim (post claim) table report >>= λ done.
    publish_claims post claims done.0 done.1

-- `enabled` is the setting ALLIES_CLOUD_EVENT_DELIVERY_ENABLED.
unfoldable pub publish_pending_event_deliveries :
    Wire
    → (List Row → List Row)
    → (EventDeliveryClaim → Answer)
    → Bool
    → ℕ
    → ℕ
    → Table
    → Result (Table × DeliveryReport)
publish_pending_event_deliveries w order post enabled limit now table =
    if enabled
    then (do
      claimed ← claim_event_deliveries w order limit now table
      publish_claims post claimed.1 claimed.0 (record empty_report { claimed = length claimed.1 }))
    else ok (table, empty_report)
