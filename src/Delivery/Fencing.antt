-- ===== src/Delivery/Fencing.antt =====
-- A claim that was superseded stays superseded: late answers change nothing.
use allies_foundry.Base.{
  ℕ, ◌-◌, ◌≤◌, ◌<◌, String, ◌≡◌, refl, Bool, true, false, ◌&&◌, ◌||◌, not, Option, none, some, List,
  ◌⊎◌, inl, inr, arith, leb, ltb, Result, ok, err, ◌>>=◌, Ensures, Ensures->>=, Ensures-ok,
  Ensures-bind, refuse, validation, text_eq, Bool-cases,
}
use allies_foundry.Delivery.Row.{Row, is_delivering, save, seconds}
use allies_foundry.Delivery.Repair.{
  Wire, park_exhausted, recover, is_caught, next_cycle, after_rebuild, transition_to_repair,
  rebuild_delivery_envelope, is_safe_error_code,
}
use allies_foundry.Delivery.Marking.{
  Outcome, success, failure, claim_row, mark_row, settle, settle_failure, mark_success,
  mark_failure, defer_row, is_current, or_now,
}
use allies_foundry.Delivery.Redrive.{redrive_row}
use allies_foundry.Delivery.Validity.{save-Ensures, save-IsStorable}

-- The row has moved on from the claim `attempt` of the cycle `cycle`.
abbrev pub Past : ℕ → ℕ → Row → Type 0
Past attempt cycle r =
    (cycle < r.repair_cycle)
    ⊎ (cycle ≡ r.repair_cycle)
      × ((attempt < r.delivery_attempts)
          ⊎ (attempt ≤ r.delivery_attempts) × (is_delivering r.state ≡ false))

-- Any operation on one row, by whoever holds whatever claim.
pub data RowStep (p s : Row) : Type 0 where
  claimed : (t : ℕ) → p.delivery_attempts < 8 → claim_row t p ≡ ok s → RowStep p s
  marked :
      (w : Wire) (attempt cycle : ℕ) (outcome : Outcome) (t jitter : ℕ)
      → mark_row w p attempt cycle outcome t jitter ≡ ok (some s)
      → RowStep p s
  deferred : (attempt cycle t : ℕ) → defer_row p attempt cycle t ≡ ok (some s) → RowStep p s
  repaired :
      (w : Wire) (t : ℕ) (code : String) (moved : Bool)
      → transition_to_repair w p p t code ≡ ok (s, moved)
      → RowStep p s
  redriven : (t : ℕ) (encoded : List ℕ) → redrive_row t p encoded ≡ ok s → RowStep p s

-- The row stays where it is, leaves its claim, or enters a later cycle.
record Moves (p s : Row) : Type 0 where
  moves :
      (p.repair_cycle < s.repair_cycle)
      ⊎ (s.repair_cycle ≡ p.repair_cycle)
        × (s.delivery_attempts ≡ p.delivery_attempts)
        × (is_delivering s.state ≡ false)

Moves-Past :
    (attempt cycle : ℕ) (p s : Row) → Moves p s → Past attempt cycle p → Past attempt cycle s
Moves-Past attempt cycle p s m h = ground arith

abbrev MovesPair : Row → Row × Bool → Type 0
MovesPair p moved = Moves p moved.0

record SameClaim (p r : Row) : Type 0 where
  same_cycle : r.repair_cycle ≡ p.repair_cycle
  same_attempts : r.delivery_attempts ≡ p.delivery_attempts

parked-Moves :
    (p r : Row) (code : String)
    → SameClaim p r
    → Ensures (MovesPair p) (park_exhausted p r code >>= λ parked. ok (parked, false))
unfolding park_exhausted
parked-Moves p r code h =
    Ensures->>= (Moves p) (MovesPair p) (park_exhausted p r code) _
      (save-Ensures (Moves p) p _ λ s. ground arith) λ s v. v

after_rebuild-Moves :
    (p r : Row) (t : ℕ) (code : String) (m : Result (List ℕ))
    → SameClaim p r
    → Ensures (MovesPair p) (after_rebuild p r t code m)
unfolding after_rebuild next_cycle recover
after_rebuild-Moves p r t code (ok encoded) h = elim (Bool-cases (leb 3 r.repair_cycle)) [
  | inl c ↦ rw c (parked-Moves p r "delivery_repair_exhausted" h)
  | inr c ↦ rw c (
      Ensures->>= (Moves p) (MovesPair p) (save p _) _
        (save-Ensures (Moves p) p _ λ s. ground arith) λ s v. v)
]
after_rebuild-Moves p r t code (err e) h = elim (Bool-cases (is_caught e)) [
  | inl c ↦ rw c (parked-Moves p r "delivery_source_invalid" h)
  | inr c ↦ rw c tt
]

transition_to_repair-Moves :
    (w : Wire) (p r : Row) (t : ℕ) (code : String)
    → SameClaim p r
    → Ensures (MovesPair p) (transition_to_repair w p r t code)
unfolding transition_to_repair
transition_to_repair-Moves w p r t code h =
    after_rebuild-Moves p r t _ (rebuild_delivery_envelope w r) h

settle_failure-Moves :
    (w : Wire) (p r : Row) (terminal : Bool) (t jitter : ℕ)
    → SameClaim p r
    → Ensures (Moves p) (settle_failure w p r terminal t jitter)
unfolding settle_failure
settle_failure-Moves w p r true t jitter h = save-Ensures (Moves p) p _ λ s. ground arith
settle_failure-Moves w p r false t jitter h = elim (Bool-cases (leb 8 r.delivery_attempts)) [
  | inl c ↦ rw c (
      Ensures->>= (MovesPair p) (Moves p) (transition_to_repair w p r t r.safe_error_code) _
        (transition_to_repair-Moves w p r t r.safe_error_code h) λ s v. v)
  | inr c ↦ rw c (save-Ensures (Moves p) p _ λ s. ground arith)
]

settle-Moves :
    (w : Wire) (p : Row) (outcome : Outcome) (t jitter : ℕ)
    → Ensures (Moves p) (settle w p outcome t jitter)
unfolding settle mark_success mark_failure
settle-Moves w p success t jitter = save-Ensures (Moves p) p _ λ s. ground arith
settle-Moves w p (failure code terminal) t jitter =
    Ensures-bind (Moves p)
      (refuse (not (text_eq code "") && not (is_safe_error_code w code)) validation) _
      λ _. settle_failure-Moves w p _ terminal t jitter (ground arith)

abbrev MovesIf : Row → Option Row → Type 0
MovesIf p none = Unit
MovesIf p (some s) = Moves p s

mark_row-Moves :
    (w : Wire) (p : Row) (attempt cycle : ℕ) (outcome : Outcome) (t jitter : ℕ)
    → Ensures (MovesIf p) (mark_row w p attempt cycle outcome t jitter)
unfolding mark_row
mark_row-Moves w p attempt cycle outcome t jitter = elim (Bool-cases (is_current p attempt cycle)) [
  | inl c ↦ rw c (
      Ensures->>= (Moves p) (MovesIf p) (settle w p outcome t jitter) _
        (settle-Moves w p outcome t jitter) λ s v. v)
  | inr c ↦ rw c tt
]

claimed-Past : (t a c : ℕ) (p s : Row) → Past a c p → claim_row t p ≡ ok s → Past a c s
unfolding claim_row
claimed-Past t a c p s h e = ground (arith, save-IsStorable p _ e)

abbrev PastIf : ℕ → ℕ → Option Row → Type 0
PastIf a c none = Unit
PastIf a c (some s) = Past a c s

-- A deferral gives an attempt back, but only to a row that leaves its claim.
deferred-Past :
    (a c attempt cycle t : ℕ) (p : Row)
    → Past a c p
    → Ensures (PastIf a c) (defer_row p attempt cycle t)
unfolding defer_row
deferred-Past a c attempt cycle t p h =
    elim (Bool-cases (
      not (is_current p attempt cycle) || ltb (seconds 1800) (t - or_now p.sequence_gap_since t))) [
        | inl e ↦ rw e tt
        | inr e ↦ rw e (
            Ensures->>= (Past a c) (PastIf a c) (save p _) _
              (save-Ensures (Past a c) p _ λ s. ground arith) λ s u. u)
      ]

redriven-Past :
    (t a c : ℕ) (p s : Row) (encoded : List ℕ)
    → Past a c p
    → redrive_row t p encoded ≡ ok s
    → Past a c s
unfolding redrive_row
redriven-Past t a c p s encoded h e = ground (arith, save-IsStorable p _ e)

-- However the row goes on from there, by whichever workers, a claim that it has moved on from does
-- not become its current one again.
RowStep-Past : {p s : Row} (a c : ℕ) → RowStep p s → Past a c p → Past a c s
RowStep-Past {p = p} {s = s} a c (claimed t below e) h = claimed-Past t a c p s h e
RowStep-Past {p} {s} a c (marked w attempt cycle outcome t jitter e) h =
    Moves-Past a c p s
      (Ensures-ok (MovesIf p) _ (mark_row-Moves w p attempt cycle outcome t jitter) e) h
RowStep-Past {p = p} {s = s} a c (deferred attempt cycle t e) h =
    Ensures-ok (PastIf a c) _ (deferred-Past a c attempt cycle t p h) e
RowStep-Past {p} {s} a c (repaired w t code moved e) h =
    Moves-Past a c p s
      (Ensures-ok (MovesPair p) _ (transition_to_repair-Moves w p p t code (ground arith)) e) h
RowStep-Past {p = p} {s = s} a c (redriven t encoded e) h = redriven-Past t a c p s encoded h e

reclaimed-Past :
    (t : ℕ) (p s : Row) → claim_row t p ≡ ok s → Past p.delivery_attempts p.repair_cycle s
unfolding claim_row
reclaimed-Past t p s e = ground (arith, save-IsStorable p _ e)

redriven_cycle-Past :
    (t attempt cycle : ℕ) (p s : Row) (encoded : List ℕ)
    → redrive_row t p encoded ≡ ok s
    → cycle ≤ p.repair_cycle
    → Past attempt cycle s
unfolding redrive_row
redriven_cycle-Past t attempt cycle p s encoded e le = ground (arith, save-IsStorable p _ e)

pub data RowLife (start : Row) : Row → Type 0 where
  here : RowLife start start
  next : {r s : Row} → RowLife start r → RowStep r s → RowLife start s

RowLife-Past : {start r : Row} (a c : ℕ) → Past a c start → RowLife start r → Past a c r
RowLife-Past a c h here = h
RowLife-Past a c h (next l st) = RowStep-Past a c st (RowLife-Past a c h l)

Past-not_current : (a c : ℕ) (r : Row) → Past a c r → is_current r a c ≡ false
Past-not_current a c r h = ground arith

-- What a publisher gets for a claim that is not the current one.
abbrev pub IsFenced : Wire → Row → ℕ → ℕ → Type 0
IsFenced w r a c =
    ((outcome : Outcome) (t jitter : ℕ) → mark_row w r a c outcome t jitter ≡ ok none)
    × ((t : ℕ) → defer_row r a c t ≡ ok none)

Past-IsFenced : (w : Wire) (r : Row) (a c : ℕ) → Past a c r → IsFenced w r a c
unfolding mark_row defer_row
Past-IsFenced w r a c h =
    let stale = Past-not_current a c r h in (λ outcome t jitter. rw stale refl, λ t. rw stale refl)

-- Once a row has been claimed, the pair of attempt number and repair cycle that it bore just before
-- this claim is fenced for ever: through all later claims, marks, deferrals, repairs and redrives of
-- the row, by any workers, a mark or a deferral under that pair stores nothing. Where
-- the row was still being delivered and its lease had run out, this is the claim that is superseded;
-- a claim that was deferred gave its number back, and is not the one that this is about.
pub reclaim_fences :
    (w : Wire) (p s r : Row) (t : ℕ)
    → claim_row t p ≡ ok s
    → RowLife s r
    → IsFenced w r p.delivery_attempts p.repair_cycle
reclaim_fences w p s r t e l = Past-IsFenced w r _ _ (RowLife-Past _ _ (reclaimed-Past t p s e) l)

-- Once a row has been redriven, every claim of its earlier cycles is fenced in the same way.
pub redrive_fences :
    (w : Wire) (p s r : Row) (t attempt cycle : ℕ) (encoded : List ℕ)
    → redrive_row t p encoded ≡ ok s
    → cycle ≤ p.repair_cycle
    → RowLife s r
    → IsFenced w r attempt cycle
redrive_fences w p s r t attempt cycle encoded e le l =
    Past-IsFenced w r _ _
      (RowLife-Past _ _ (redriven_cycle-Past t attempt cycle p s encoded e le) l)
