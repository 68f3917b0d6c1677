-- ===== src/Delivery/History.antt =====
-- The outbox over any history of transactions.
use allies_foundry.Base.{
  ℕ, ◌≡◌, Bool, true, false, Option, List, [], ◌∷◌, ◌++◌, arith, if◌then◌else◌, ltb, length, ok,
  Ensures, Ensures->>=, Ensures-ok, Ensures-bind, subst, Bool-cases, inl, inr, not, ensure,
  validation,
}
use allies_foundry.Delivery.Row.{Row, is_exhausted}
use allies_foundry.Delivery.Repair.{Wire}
use allies_foundry.Delivery.Marking.{Outcome}
use allies_foundry.Delivery.Outbox.{
  Table, EventDeliveryClaim, store, claim_event_deliveries, mark_event_delivery,
  defer_for_sequence_gap, wake_attempt_successors, enqueue_event_delivery,
}
use allies_foundry.Delivery.Redrive.{
  RedriveReport, redrive_row, redrive_rows, gather, rebuild_all, redrive_event_deliveries,
}
use allies_foundry.Delivery.Validity.{IsValid, save-Ensures}
use allies_foundry.Delivery.Invariant.{
  AllValid, Kept, Selects, store-AllValid, claim_event_deliveries-AllValid,
  mark_event_delivery-AllValid, defer_for_sequence_gap-AllValid, wake_attempt_successors-AllValid,
  enqueue_event_delivery-AllValid,
}

redrive_row-IsValid :
    (t : ℕ) (r : Row) (encoded : List ℕ) → Ensures IsValid (redrive_row t r encoded)
unfolding redrive_row
redrive_row-IsValid t r encoded = save-Ensures IsValid r _ λ s. ground arith

-- A redrive loop returns the table and two counts.
abbrev KeptCounts : Table × ℕ × ℕ → Type 0
KeptCounts done = AllValid done.0

redrive_rows-AllValid :
    (t : ℕ) (rs : List (Row × List ℕ)) (table : Table)
    → AllValid table
    → Ensures KeptCounts (redrive_rows t rs table)
unfolding redrive_rows
redrive_rows-AllValid t [] table vs = vs
redrive_rows-AllValid t ((r, encoded) ∷ rs) table vs =
    elim (Bool-cases (not (is_exhausted r.state))) [
      | inl c ↦ rw c (
          Ensures->>= KeptCounts KeptCounts (redrive_rows t rs table) _
            (redrive_rows-AllValid t rs table vs) λ done v. v)
      | inr c ↦ rw c (
          Ensures->>= IsValid KeptCounts (redrive_row t r encoded) _
            (redrive_row-IsValid t r encoded)
            λ s v.
              Ensures->>= KeptCounts KeptCounts (redrive_rows t rs (store s table)) _
                (redrive_rows-AllValid t rs (store s table) (store-AllValid s table v vs))
                λ done u. u)
    ]

redrive_if-AllValid :
    (confirm : Bool) (t : ℕ) (rs : List (Row × List ℕ)) (table : Table)
    → AllValid table
    → Ensures KeptCounts (if confirm then redrive_rows t rs table else ok (table, 0, 0))
redrive_if-AllValid true t rs table vs = redrive_rows-AllValid t rs table vs
redrive_if-AllValid false t rs table vs = vs

pub redrive_event_deliveries-AllValid :
    (w : Wire) (delivery_ids event_ids : List ℕ) (confirm : Bool) (t : ℕ) (table : Table)
    → AllValid table
    → Ensures Kept (redrive_event_deliveries w delivery_ids event_ids confirm t table)
unfolding redrive_event_deliveries
redrive_event_deliveries-AllValid w delivery_ids event_ids confirm t table vs =
    Ensures-bind Kept (ensure (ltb 0 (length (delivery_ids ++ event_ids))) validation) _ λ _.
      Ensures-bind Kept (gather w delivery_ids event_ids table (delivery_ids ++ event_ids) []) _
        λ rows. Ensures-bind Kept (rebuild_all w rows) _ λ rebuilt.
          Ensures->>= KeptCounts Kept _ _ (redrive_if-AllValid confirm t rebuilt table vs)
            λ done v. v

module _ (order : List Row → List Row) where
  -- One transaction that was committed, by a worker, a publisher or an operator.
  pub data Step (before after : Table) : Type 0 where
    claimed :
        (w : Wire) (limit t : ℕ) (cs : List EventDeliveryClaim)
        → claim_event_deliveries w order limit t before ≡ ok (after, cs)
        → Step before after
    marked :
        (w : Wire) (k attempt cycle : ℕ) (outcome : Outcome) (t jitter : ℕ) (o : Option Row)
        → mark_event_delivery w k attempt cycle outcome t jitter before ≡ ok (after, o)
        → Step before after
    deferred :
        (claim : EventDeliveryClaim) (t : ℕ) (o : Option Row)
        → defer_for_sequence_gap claim t before ≡ ok (after, o)
        → Step before after
    woken :
        (w : Wire) (row : Row) (t : ℕ)
        → wake_attempt_successors w row t before ≡ after
        → Step before after
    enqueued :
        (w : Wire) (event_id new_id t : ℕ) (o : Option Row)
        → enqueue_event_delivery w event_id new_id t before ≡ ok (after, o)
        → Step before after
    redriven :
        (w : Wire) (delivery_ids event_ids : List ℕ) (confirm : Bool) (t : ℕ)
        (report : RedriveReport)
        → redrive_event_deliveries w delivery_ids event_ids confirm t before ≡ ok (after, report)
        → Step before after

  pub data History (start : Table) : Table → Type 0 where
    here : History start start
    next : {before after : Table} → History start before → Step before after → History start after

  pub Step-AllValid : Selects order → {s t : Table} → Step s t → AllValid s → AllValid t
  Step-AllValid sel (claimed w limit t cs e) vs =
      Ensures-ok Kept _ (claim_event_deliveries-AllValid w order limit t _ sel vs) e
  Step-AllValid sel (marked w k attempt cycle outcome t jitter o e) vs =
      Ensures-ok Kept _ (mark_event_delivery-AllValid w k attempt cycle outcome t jitter _ vs) e
  Step-AllValid sel (deferred claim t o e) vs =
      Ensures-ok Kept _ (defer_for_sequence_gap-AllValid claim t _ vs) e
  Step-AllValid sel (woken w row t e) vs =
      subst AllValid e (wake_attempt_successors-AllValid w row t _ vs)
  Step-AllValid sel (enqueued w event_id new_id t o e) vs =
      Ensures-ok Kept _ (enqueue_event_delivery-AllValid w event_id new_id t _ vs) e
  Step-AllValid sel (redriven w delivery_ids event_ids confirm t report e) vs =
      Ensures-ok Kept _ (redrive_event_deliveries-AllValid w delivery_ids event_ids confirm t _ vs)
        e

  -- Starting from an empty outbox, whatever transactions are committed and in whatever order, every
  -- row stays valid: a stored envelope has its recorded length and at most 64 KiB, and is there
  -- exactly until the row is delivered or exhausted; a row has a lease exactly while it is being
  -- delivered; it has at most eight attempts, fewer while it is pending; and its error code and its
  -- fingerprint have the stored form.
  pub History-AllValid : Selects order → {t : Table} → History [] t → AllValid t
  History-AllValid sel here = tt
  History-AllValid sel (next h st) = Step-AllValid sel st (History-AllValid sel h)
