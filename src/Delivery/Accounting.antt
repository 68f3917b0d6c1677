-- ===== src/Delivery/Accounting.antt =====
-- The publisher's report accounts for every claim.
use allies_foundry.Base.{
  ℕ, suc, ◌+◌, ◌≤◌, String, ◌≡◌, Bool, true, false, ◌&&◌, ◌||◌, Option, none, some, List, [], ◌∷◌,
  arith, text_eq, ◌==◌, leb, length, length-take-le, take, select, Result, ok, ◌>>=◌, or_raise,
  ensure, validation, does_not_exist, Ensures, Ensures->>=, Ensures-bind, Ensures-map, Ensures-ok,
  Bool-cases, inl, inr,
}
use allies_foundry.Delivery.Row.{Row, is_pending, is_exhausted}
use allies_foundry.Delivery.Repair.{Wire}
use allies_foundry.Delivery.Marking.{success, failure, mark_row}
use allies_foundry.Delivery.Outbox.{
  Table, EventDeliveryClaim, find_row, keep_row, is_spent, is_due, repair_rows, claim_rows,
  claim_event_deliveries, mark_event_delivery, defer_for_sequence_gap,
}
use allies_foundry.Delivery.Publisher.{
  DeliveryReport, empty_report, Answer, count_failure, publish_success, publish_failure,
  after_deferral, publish_claim, publish_claims, publish_pending_event_deliveries,
}
use allies_foundry.Delivery.Settling.{Fails, IfSome, mark_row-Fails}
use allies_foundry.Delivery.Exclusion.{claim_rows-length}

-- The claims that a report has accounted for so far.
abbrev pub accounted : DeliveryReport → ℕ
accounted report = report.delivered + report.deferred + report.exhausted

abbrev HasFailed : Row → Type 0
HasFailed s = (is_pending s.state || is_exhausted s.state) ≡ true

abbrev HasFailedMark : Table × Option Row → Type 0
HasFailedMark done = IfSome HasFailed done.1

keep_row-HasFailed :
    (p : Row) (table : Table) (o : Option Row)
    → IfSome (Fails p) o
    → HasFailedMark (keep_row table o)
unfolding keep_row
keep_row-HasFailed p table none h = tt
keep_row-HasFailed p table (some s) h = h.failed

mark_failure-HasFailed :
    (w : Wire) (k attempt cycle : ℕ) (code : String) (terminal : Bool) (t jitter : ℕ)
    (table : Table)
    → Ensures HasFailedMark
        (mark_event_delivery w k attempt cycle (failure code terminal) t jitter table)
unfolding mark_event_delivery
mark_failure-HasFailed w k attempt cycle code terminal t jitter table = found (find_row k table)
  where
    found :
        (o : Option Row)
        → Ensures HasFailedMark (
            or_raise o does_not_exist >>= λ row.
            mark_row w row attempt cycle (failure code terminal) t jitter >>= λ marked.
            ok (keep_row table marked))
    found none = tt
    found (some row) =
        Ensures->>= (IfSome (Fails row)) HasFailedMark _ _
          (mark_row-Fails w row attempt cycle code terminal t jitter)
          λ marked h. keep_row-HasFailed row table marked h

-- One more claim is accounted for, and the number of claims is as it was.
abbrev Counts : DeliveryReport → DeliveryReport → Type 0
Counts before after = (accounted after ≡ accounted before + 1) × (after.claimed ≡ before.claimed)

abbrev CountsNext : DeliveryReport → Table × DeliveryReport → Type 0
CountsNext report done = Counts report done.1

count_failure-Counts :
    (report : DeliveryReport) (o : Option Row)
    → IfSome HasFailed o
    → Counts report (count_failure report o)
unfolding count_failure
count_failure-Counts report none h = ground arith
count_failure-Counts report (some s) h = ground arith

publish_failure-Counts :
    (claim : EventDeliveryClaim) (answer : Answer) (table : Table) (report : DeliveryReport)
    → Ensures (CountsNext report) (publish_failure claim answer table report)
unfolding publish_failure
publish_failure-Counts claim answer table report =
    Ensures->>= HasFailedMark (CountsNext report) _ _
      (mark_failure-HasFailed answer.wire claim.delivery_id claim.attempt claim.repair_cycle _ _
        answer.mark_at answer.jitter (answer.before_mark table))
      λ marked h. count_failure-Counts report marked.1 h

publish_success-Counts :
    (claim : EventDeliveryClaim) (answer : Answer) (marked : Table × Option Row)
    (report : DeliveryReport)
    → CountsNext report (publish_success claim answer marked report)
unfolding publish_success
publish_success-Counts claim answer (table, none) report = ground arith
publish_success-Counts claim answer (table, some s) report = ground arith

after_deferral-Counts :
    (claim : EventDeliveryClaim) (answer : Answer) (report : DeliveryReport)
    (done : Table × Option Row)
    → Ensures (CountsNext report) (after_deferral claim answer report done)
unfolding after_deferral
after_deferral-Counts claim answer report (table, some s) = ground arith
after_deferral-Counts claim answer report (table, none) =
    publish_failure-Counts claim answer table report

publish_claim-Counts :
    (claim : EventDeliveryClaim) (answer : Answer) (table : Table) (report : DeliveryReport)
    → Ensures (CountsNext report) (publish_claim claim answer table report)
unfolding publish_claim
publish_claim-Counts claim answer table report = elim (Bool-cases (answer.status == 202)) [
  | inl c ↦ rw c (
      Ensures-bind (CountsNext report)
        (mark_event_delivery answer.wire claim.delivery_id claim.attempt claim.repair_cycle success
          answer.mark_at answer.jitter (answer.before_mark table))
        _ λ marked. publish_success-Counts claim answer marked report)
  | inr c ↦ rw c (elim (Bool-cases (answer.status == 409 && text_eq answer.code "sequence_gap")) [
    | inl g ↦ rw g (
        Ensures-bind (CountsNext report)
          (defer_for_sequence_gap claim answer.gap_at (answer.before_gap table)) _
          λ done. after_deferral-Counts claim answer report done)
    | inr g ↦ rw g (publish_failure-Counts claim answer table report)
  ])
]

abbrev CountsAll : ℕ → DeliveryReport → Table × DeliveryReport → Type 0
CountsAll n report done =
    (accounted done.1 ≡ accounted report + n) × (done.1.claimed ≡ report.claimed)

publish_claims-Counts :
    (post : EventDeliveryClaim → Answer) (claims : List EventDeliveryClaim) (table : Table)
    (report : DeliveryReport)
    → Ensures (CountsAll (length claims) report) (publish_claims post claims table report)
unfolding publish_claims
publish_claims-Counts post [] table report = ground arith
publish_claims-Counts post (claim ∷ claims) table report =
    Ensures->>= (CountsNext report) (CountsAll (suc (length claims)) report)
      (publish_claim claim (post claim) table report) _
      (publish_claim-Counts claim (post claim) table report)
      λ done h.
        Ensures-map (CountsAll (length claims) done.1) (CountsAll (suc (length claims)) report) _
          (λ final k. omega arith) (publish_claims-Counts post claims done.0 done.1)

abbrev HasLength : ℕ → Table × List EventDeliveryClaim → Type 0
HasLength n done = length done.1 ≡ n

abbrev IsWithin : ℕ → Table × List EventDeliveryClaim → Type 0
IsWithin limit done = length done.1 ≤ limit

claim_rows-IsWithin :
    (limit t : ℕ) (rows : List Row) (table : Table)
    → Ensures (IsWithin limit) (claim_rows t (take limit rows) table)
claim_rows-IsWithin limit t rows table =
    Ensures-map (HasLength (length (take limit rows))) (IsWithin limit)
      (claim_rows t (take limit rows) table) (λ done e. omega (arith, length-take-le limit rows))
      (claim_rows-length t (take limit rows) table)

claim-IsWithin :
    (w : Wire) (order : List Row → List Row) (limit t : ℕ) (table : Table)
    → Ensures (IsWithin limit) (claim_event_deliveries w order limit t table)
unfolding claim_event_deliveries
claim-IsWithin w order limit t table =
    Ensures-bind (IsWithin limit) (ensure (leb 1 limit && leb limit 20) validation) _ λ _.
      Ensures-bind (IsWithin limit)
        (repair_rows w t (take limit (order (select (is_spent t) table))) table) _
        λ repaired. claim_rows-IsWithin limit t (order (select (is_due t) repaired)) repaired

abbrev IsAccounted : ℕ → Table × DeliveryReport → Type 0
IsAccounted limit done = (accounted done.1 ≡ done.1.claimed) × (done.1.claimed ≤ limit)

-- Whatever Cloud answers and whatever other workers do to the outbox in between, a batch that
-- raises nothing claims at most `limit` rows, and reports each claim once: as delivered, deferred
-- or exhausted.
pub publish-IsAccounted :
    (w : Wire) (order : List Row → List Row) (post : EventDeliveryClaim → Answer) (enabled : Bool)
    (limit now : ℕ) (table after : Table) (report : DeliveryReport)
    → publish_pending_event_deliveries w order post enabled limit now table ≡ ok (after, report)
    → (report.delivered + report.deferred + report.exhausted ≡ report.claimed)
      × (report.claimed ≤ limit)
unfolding publish_pending_event_deliveries
publish-IsAccounted w order post true limit now table after report e =
    Ensures-ok (IsAccounted limit) (claim_event_deliveries w order limit now table >>= publish)
      (Ensures->>= (IsWithin limit) (IsAccounted limit) _ publish
        (claim-IsWithin w order limit now table)
        λ claimed h.
          Ensures-map
            (CountsAll (length claimed.1) (record empty_report { claimed = length claimed.1 }))
            (IsAccounted limit) (publish claimed) (λ final k. omega arith)
            (publish_claims-Counts post claimed.1 claimed.0 _))
      e
  where
    publish : Table × List EventDeliveryClaim → Result (Table × DeliveryReport)
    publish claimed =
        publish_claims post claimed.1 claimed.0 (record empty_report { claimed = length claimed.1 })
publish-IsAccounted w order post false limit now table after report e = ground arith
