-- ===== src/Delivery/Settling.antt =====
-- What a claim, a mark and a deferral do to the row that they store.
use allies_foundry.Base.{
  ℕ, ◌+◌, ◌-◌, ◌*◌, ◌≤◌, ◌<◌, String, ◌≡◌, Bool, true, false, ◌||◌, Option, none, some, List, arith,
  text_eq, Result, ok, err, ◌>>=◌, ◌&&◌, not, leb, ltb, Ensures, Ensures->>=, Ensures-map,
  RuntimeDomainError, Bool-cases, inl, inr,
}
use allies_foundry.Delivery.Row.{
  Row, EventDeliveryState, pending, delivering, is_terminal, is_delivering, is_pending,
  is_exhausted, save, seconds, max_delivery_attempts, max_automatic_repair_cycles,
}
use allies_foundry.Delivery.Repair.{
  Wire, park_exhausted, recover, is_caught, next_cycle, is_safe_error_code, after_rebuild,
  transition_to_repair, rebuild_delivery_envelope,
}
use allies_foundry.Delivery.Marking.{
  Outcome, success, failure, claim_row, mark_row, settle, settle_failure, mark_success,
  mark_failure, defer_row, is_current, or_now,
}
use allies_foundry.Delivery.Validity.{IsValid, save-Ensures}

-- The claims that a row may still see before it is parked, if nobody redrives it.
abbrev pub open_budget : EventDeliveryState → ℕ → ℕ → ℕ
open_budget pending cycle attempts = (3 - cycle) * 8 + (8 - attempts)
open_budget delivering cycle attempts = (3 - cycle) * 8 + (8 - attempts)
open_budget _ cycle attempts = 0

abbrev pub budget : Row → ℕ
budget r = open_budget r.state r.repair_cycle r.delivery_attempts

-- `s` is a valid later version of the row `p`, with no more claims left.
pub record Settles (p s : Row) : Type 0 where
  pub valid : IsValid s
  pub same_id : s.id ≡ p.id
  pub same_event : s.event_id ≡ p.event_id
  pub budget_le : budget s ≤ budget p

-- In addition it is neither delivered nor claimed.
pub record Fails (p s : Row) : Type 0 where
  pub settles : Settles p s
  pub failed : (is_pending s.state || is_exhausted s.state) ≡ true

-- The object in memory that belongs to a stored row with its last attempt used up.
record IsSpent (p r : Row) : Type 0 where
  same_id : r.id ≡ p.id
  same_event : r.event_id ≡ p.event_id
  claimed : is_delivering p.state ≡ true
  used_up : 8 ≤ p.delivery_attempts
  same_cycle : r.repair_cycle ≡ p.repair_cycle

-- A repair reports the row that it stored, and whether this began a new cycle.
abbrev pub FailsMove : Row → Row × Bool → Type 0
FailsMove p moved = Fails p moved.0

parked-Fails :
    (p r : Row) (code : String)
    → IsSpent p r
    → Ensures (FailsMove p) (park_exhausted p r code >>= λ parked. ok (parked, false))
unfolding park_exhausted
parked-Fails p r code h =
    Ensures->>= (Fails p) (FailsMove p) (park_exhausted p r code) _
      (save-Ensures (Fails p) p _ λ s. ground arith) λ s v. v

recover-Fails :
    (p r : Row) (e : RuntimeDomainError) → IsSpent p r → Ensures (FailsMove p) (recover p r e)
unfolding recover
recover-Fails p r e h = elim (Bool-cases (is_caught e)) [
  | inl c ↦ rw c (parked-Fails p r "delivery_source_invalid" h)
  | inr c ↦ rw c tt
]

next_cycle-Fails :
    (p r : Row) (t : ℕ) (code : String) (encoded : List ℕ)
    → IsSpent p r
    → Ensures (FailsMove p) (next_cycle p r t code encoded)
unfolding next_cycle
next_cycle-Fails p r t code encoded h =
    elim (Bool-cases (leb max_automatic_repair_cycles r.repair_cycle)) [
      | inl c ↦ rw c (parked-Fails p r "delivery_repair_exhausted" h)
      | inr c ↦ rw c (
          Ensures->>= (Fails p) (FailsMove p) (save p _) _
            (save-Ensures (Fails p) p _ λ s. ground arith) λ s v. v)
    ]

after_rebuild-Fails :
    (p r : Row) (t : ℕ) (code : String) (m : Result (List ℕ))
    → IsSpent p r
    → Ensures (FailsMove p) (after_rebuild p r t code m)
unfolding after_rebuild
after_rebuild-Fails p r t code (ok encoded) h = next_cycle-Fails p r t code encoded h
after_rebuild-Fails p r t code (err e) h = recover-Fails p r e h

-- The repair of a claimed row with its eighth attempt used up.
pub repair_lem :
    (w : Wire) (p : Row) (t : ℕ) (code : String)
    → is_delivering p.state ≡ true
    → 8 ≤ p.delivery_attempts
    → Ensures (FailsMove p) (transition_to_repair w p p t code)
unfolding transition_to_repair
repair_lem w p t code d u =
    after_rebuild-Fails p p t _ (rebuild_delivery_envelope w p) (ground arith)

settle_failure-Fails :
    (w : Wire) (p : Row) (code : String) (terminal : Bool) (t jitter : ℕ)
    → is_delivering p.state ≡ true
    → Ensures (Fails p) (
        settle_failure w p
          (record p { safe_error_code = code; lease_expires_at = none })
          terminal
          t
          jitter)
unfolding settle_failure transition_to_repair
settle_failure-Fails w p code true t jitter d = save-Ensures (Fails p) p _ λ s. ground arith
settle_failure-Fails w p code false t jitter d =
    elim (Bool-cases (leb max_delivery_attempts p.delivery_attempts)) [
      | inl c ↦ rw c (
          Ensures->>= (FailsMove p) (Fails p) (transition_to_repair w p _ t code) _
            (after_rebuild-Fails p _ t _ (rebuild_delivery_envelope w _) (ground arith)) λ s v. v)
      | inr c ↦ rw c (save-Ensures (Fails p) p _ λ s. ground arith)
    ]

mark_failure-Fails :
    (w : Wire) (p : Row) (code : String) (terminal : Bool) (t jitter : ℕ)
    → is_delivering p.state ≡ true
    → Ensures (Fails p) (mark_failure w p code terminal t jitter)
unfolding mark_failure
mark_failure-Fails w p code terminal t jitter d =
    elim (Bool-cases (not (text_eq code "") && not (is_safe_error_code w code))) [
      | inl c ↦ rw c tt
      | inr c ↦ rw c (settle_failure-Fails w p _ terminal t jitter d)
    ]

-- A result that may be missing.
abbrev pub IfSome {ℓ κ} : {A : Type ℓ} → (A → Type κ) → Option A → Type κ
IfSome P none = Unit
IfSome P (some a) = P a

-- A failed mark leaves the row pending or exhausted, or does not touch it.
pub mark_row-Fails :
    (w : Wire) (p : Row) (attempt cycle : ℕ) (code : String) (terminal : Bool) (t jitter : ℕ)
    → Ensures (IfSome (Fails p)) (mark_row w p attempt cycle (failure code terminal) t jitter)
unfolding mark_row settle
mark_row-Fails w p attempt cycle code terminal t jitter =
    elim (Bool-cases (is_current p attempt cycle)) [
      | inl c ↦ rw c (
          Ensures->>= (Fails p) (IfSome (Fails p)) (mark_failure w p code terminal t jitter) _
            (mark_failure-Fails w p code terminal t jitter (ground arith)) λ s v. v)
      | inr c ↦ rw c tt
    ]

IfSome-Settles : (p : Row) (o : Option Row) → IfSome (Fails p) o → IfSome (Settles p) o
IfSome-Settles p none h = tt
IfSome-Settles p (some s) h = h.settles

-- A mark stores a valid row that has no more claims left than the row before, or stores nothing.
pub mark_row-Settles :
    (w : Wire) (p : Row) (attempt cycle : ℕ) (outcome : Outcome) (t jitter : ℕ)
    → Ensures (IfSome (Settles p)) (mark_row w p attempt cycle outcome t jitter)
unfolding mark_row settle mark_success
mark_row-Settles w p attempt cycle success t jitter =
    elim (Bool-cases (is_current p attempt cycle)) [
      | inl c ↦ rw c (
          Ensures->>= (Settles p) (IfSome (Settles p)) (mark_success p t) _
            (save-Ensures (Settles p) p _ λ s. ground arith) λ s v. v)
      | inr c ↦ rw c tt
    ]
mark_row-Settles w p attempt cycle (failure code terminal) t jitter =
    Ensures-map (IfSome (Fails p)) (IfSome (Settles p)) _ (IfSome-Settles p)
      (mark_row-Fails w p attempt cycle code terminal t jitter)

-- What a claim does: the row is leased for sixty seconds, and one claim is spent.
pub record Claims (t : ℕ) (p s : Row) : Type 0 where
  pub valid : IsValid s
  pub same_id : s.id ≡ p.id
  pub same_event : s.event_id ≡ p.event_id
  pub claimed : s.state ≡ delivering
  pub leased_until : s.lease_expires_at ≡ some (t + seconds 60)
  pub counted : s.delivery_attempts ≡ p.delivery_attempts + 1
  pub same_cycle : s.repair_cycle ≡ p.repair_cycle
  pub budget_lt : budget s < budget p

pub claim_row-Claims :
    (t : ℕ) (p : Row)
    → is_terminal p.state ≡ false
    → p.delivery_attempts < 8
    → Ensures (Claims t p) (claim_row t p)
unfolding claim_row
claim_row-Claims t p open' below = save-Ensures (Claims t p) p _ λ s. ground arith

-- What a deferral does: the attempt of the claim is given back, and the first report of the gap
-- is kept.
pub record Defers (p s : Row) : Type 0 where
  pub valid : IsValid s
  pub same_id : s.id ≡ p.id
  pub waiting : s.state ≡ pending
  pub refunded : s.delivery_attempts + 1 ≡ p.delivery_attempts
  pub gap_kept : (g : ℕ) → p.sequence_gap_since ≡ some g → s.sequence_gap_since ≡ some g

pub defer_row-Defers :
    (p : Row) (attempt cycle t : ℕ)
    → IsValid p
    → Ensures (IfSome (Defers p)) (defer_row p attempt cycle t)
unfolding defer_row
defer_row-Defers p attempt cycle t v =
    elim (Bool-cases (
      not (is_current p attempt cycle) || ltb (seconds 1800) (t - or_now p.sequence_gap_since t))) [
        | inl c ↦ rw c tt
        | inr c ↦ rw c (
            Ensures->>= (Defers p) (IfSome (Defers p)) (save p _) _
              (save-Ensures (Defers p) p _ λ s. ground arith) λ s u. u)
      ]
