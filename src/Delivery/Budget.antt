-- ===== src/Delivery/Budget.antt =====
-- The deliveries of one row are bounded: eight attempts in each of four cycles.
use allies_foundry.Base.{
  ℕ, zero, suc, ◌+◌, ◌≤◌, ◌<◌, String, ◌≡◌, Bool, true, false, some, arith, ok, Ensures-ok,
}
use allies_foundry.Delivery.Row.{Row, pending, is_terminal, is_delivering}
use allies_foundry.Delivery.Repair.{Wire, transition_to_repair}
use allies_foundry.Delivery.Marking.{Outcome, claim_row, mark_row}
use allies_foundry.Delivery.Outbox.{is_spent, is_due}
use allies_foundry.Delivery.Settling.{
  budget, Claims, FailsMove, Settles, IfSome, claim_row-Claims, repair_lem, mark_row-Settles,
}

-- What happens to a row that is never redriven and never waits for a predecessor; the index
-- counts the claims, and so the POSTs that Cloud may see.
pub data Life (start : Row) : ℕ → Row → Type 0 where
  born : Life start zero start
  claimed :
      {n : ℕ} {r s : Row} (t : ℕ)
      → Life start n r
      → is_due t r ≡ true
      → claim_row t r ≡ ok s
      → Life start (suc n) s
  marked :
      {n : ℕ} {r s : Row} (w : Wire) (attempt cycle : ℕ) (outcome : Outcome) (t jitter : ℕ)
      → Life start n r
      → mark_row w r attempt cycle outcome t jitter ≡ ok (some s)
      → Life start n s
  repaired :
      {n : ℕ} {r : Row} {moved : Row × Bool} (w : Wire) (t : ℕ) (code : String)
      → Life start n r
      → is_spent t r ≡ true
      → transition_to_repair w r r t code ≡ ok moved
      → Life start n moved.0

open_of_due :
    (t : ℕ) (r : Row)
    → is_due t r ≡ true
    → (is_terminal r.state ≡ false) × (r.delivery_attempts < 8)
open_of_due t r h = ground arith

spent_of :
    (t : ℕ) (r : Row)
    → is_spent t r ≡ true
    → (is_delivering r.state ≡ true) × (8 ≤ r.delivery_attempts)
spent_of t r h = ground arith

Life-budget : {start r : Row} {n : ℕ} → Life start n r → n + budget r ≤ budget start
Life-budget born = omega arith
Life-budget (claimed {r = r} t l due e) = omega (
  arith,
  Life-budget l,
  (Ensures-ok (Claims t r) _ (claim_row-Claims t r (open_of_due t r due).0 (open_of_due t r due).1)
      e).budget_lt,
)
Life-budget (marked {r = r} w attempt cycle outcome t jitter l e) = omega (
  arith,
  Life-budget l,
  (Ensures-ok (IfSome (Settles r)) _ (mark_row-Settles w r attempt cycle outcome t jitter)
      e).budget_le,
)
Life-budget (repaired {r = r} w t code l spent e) = omega (
  arith,
  Life-budget l,
  (Ensures-ok (FailsMove r) _ (repair_lem w r t code (spent_of t r spent).0 (spent_of t r spent).1)
      e).settles.budget_le,
)

-- A new row, which is pending in cycle 0 with no attempt made, is claimed at most 32 times, so
-- Cloud sees at most 32 POSTs of it, through all the automatic repair cycles, unless an operator
-- redrives it or Cloud reports a missing predecessor.
pub claims_bounded :
    (start r : Row) (n : ℕ)
    → start.state ≡ pending
    → start.repair_cycle ≡ 0
    → start.delivery_attempts ≡ 0
    → Life start n r
    → n ≤ 32
claims_bounded start r n p c a l = ground (arith, Life-budget l)
