-- ===== src/Delivery/Invariant.antt =====
-- Every transaction of the outbox keeps every row valid.
use allies_foundry.Base.{
  ℕ, ◌<◌, ◌≡◌, refl, sym, Bool, true, false, ◌&&◌, Option, none, some, List, [], ◌∷◌, arith, leb,
  take, select, All, All-take, All-select, All-update_where, find_first-All, ok, ◌>>=◌, or_raise,
  does_not_exist, subst, Ensures-intro, Ensures, Ensures->>=, Ensures-map, Bool-cases, inl, inr,
  text_eq,
}
use allies_foundry.Delivery.Row.{Row, is_terminal, create}
use allies_foundry.Delivery.Repair.{Wire, Envelope}
use allies_foundry.Delivery.Marking.{Outcome, mark_row}
use allies_foundry.Delivery.Outbox.{
  Table, EventDeliveryClaim, store, find_row, keep_row, is_spent, is_due, repair_rows, claim_rows,
  claim_event_deliveries, mark_event_delivery, deferred_row, defer_for_sequence_gap,
  wake_attempt_successors, enqueue_event_delivery, enqueue_built, existing_or_new,
}
use allies_foundry.Delivery.Validity.{IsValid, IsStorable, create-IsStorable}
use allies_foundry.Delivery.Settling.{
  FailsMove, Settles, Claims, Defers, IfSome, repair_lem, mark_row-Settles, claim_row-Claims,
  defer_row-Defers,
}

abbrev pub AllValid : Table → Type 0
AllValid = All IsValid

-- A service returns the new table with something else.
abbrev pub Kept {ℓ} : {B : Type ℓ} → Table × B → Type 0
Kept done = AllValid done.0

-- `ORDER BY` gives back rows of the selection only.
abbrev pub Selects : (List Row → List Row) → Type 1
Selects order = (P : Row → Type 0) (rows : List Row) → All P rows → All P (order rows)

pub store-AllValid :
    (r : Row) (table : Table) → IsValid r → AllValid table → AllValid (store r table)
store-AllValid r table v vs = All-update_where IsValid _ _ (λ x hit vx. v) table vs

-- The rows that a filter selects, in the order and the number asked for.
pub selected :
    (order : List Row → List Row) (n : ℕ) (P : Row → Type 0) (p : Row → Bool) (table : Table)
    → Selects order
    → All P table
    → All (λ r. P r × (p r ≡ true)) (take n (order (select p table)))
selected order n P p table sel h = All-take _ n _ (sel _ _ (All-select P p table h))

abbrev Spent : ℕ → Row → Type 0
Spent t r = IsValid r × (is_spent t r ≡ true)

repair_rows-AllValid :
    (w : Wire) (t : ℕ) (rs : List Row) (table : Table)
    → All (Spent t) rs
    → AllValid table
    → Ensures AllValid (repair_rows w t rs table)
unfolding repair_rows
repair_rows-AllValid w t [] table h vs = vs
repair_rows-AllValid w t (r ∷ rs) table h vs =
    Ensures->>= (FailsMove r) AllValid _ _
      (repair_lem w r t "delivery_lease_expired" (ground (arith, h.0.1)) (ground (arith, h.0.1)))
      λ moved f.
        repair_rows-AllValid w t rs (store moved.0 table) h.1
          (store-AllValid moved.0 table f.settles.valid vs)

abbrev Due : ℕ → Row → Type 0
Due t r = IsValid r × (is_due t r ≡ true)

is_due_open :
    (t : ℕ) (r : Row)
    → is_due t r ≡ true
    → (is_terminal r.state ≡ false) × (r.delivery_attempts < 8)
is_due_open t r h = ground arith

claim_rows-AllValid :
    (t : ℕ) (rs : List Row) (table : Table)
    → All (Due t) rs
    → AllValid table
    → Ensures Kept (claim_rows t rs table)
unfolding claim_rows
claim_rows-AllValid t [] table h vs = vs
claim_rows-AllValid t (r ∷ rs) table h vs =
    Ensures->>= (Claims t r) _ _ _
      (claim_row-Claims t r (is_due_open t r h.0.1).0 (is_due_open t r h.0.1).1)
      λ s c.
        Ensures->>= Kept Kept _ _
          (claim_rows-AllValid t rs (store s table) h.1 (store-AllValid s table c.valid vs))
          λ done v. v

pub claim_event_deliveries-AllValid :
    (w : Wire) (order : List Row → List Row) (limit t : ℕ) (table : Table)
    → Selects order
    → AllValid table
    → Ensures Kept (claim_event_deliveries w order limit t table)
unfolding claim_event_deliveries
claim_event_deliveries-AllValid w order limit t table sel vs =
    elim (Bool-cases (leb 1 limit && leb limit 20)) [
      | inr c ↦ rw c tt
      | inl c ↦ rw c (
          Ensures->>= AllValid _ _ _
            (repair_rows-AllValid w t _ table
              (selected order limit IsValid (is_spent t) table sel vs) vs)
            λ repaired rvs.
              claim_rows-AllValid t _ repaired
                (selected order limit IsValid (is_due t) repaired sel rvs) rvs)
    ]

keep_row-AllValid :
    (table : Table) (o : Option Row) → IfSome IsValid o → AllValid table → Kept (keep_row table o)
unfolding keep_row
keep_row-AllValid table none h vs = vs
keep_row-AllValid table (some r) h vs = store-AllValid r table h vs

Settles-IsValid : (p : Row) (o : Option Row) → IfSome (Settles p) o → IfSome IsValid o
Settles-IsValid p none h = tt
Settles-IsValid p (some r) h = h.valid

Defers-IsValid : (p : Row) (o : Option Row) → IfSome (Defers p) o → IfSome IsValid o
Defers-IsValid p none h = tt
Defers-IsValid p (some r) h = h.valid

pub mark_event_delivery-AllValid :
    (w : Wire) (k attempt cycle : ℕ) (outcome : Outcome) (t jitter : ℕ) (table : Table)
    → AllValid table
    → Ensures Kept (mark_event_delivery w k attempt cycle outcome t jitter table)
unfolding mark_event_delivery
mark_event_delivery-AllValid w k attempt cycle outcome t jitter table vs = found (find_row k table)
  where
    found :
        (o : Option Row)
        → Ensures Kept (
            or_raise o does_not_exist >>= λ row.
            mark_row w row attempt cycle outcome t jitter >>= λ marked. ok (keep_row table marked))
    found none = tt
    found (some row) =
        Ensures->>= (IfSome (Settles row)) Kept _ _
          (mark_row-Settles w row attempt cycle outcome t jitter)
          λ marked h. keep_row-AllValid table marked (Settles-IsValid row marked h) vs

deferred_row-IsValid :
    (o : Option Row) (attempt cycle t : ℕ)
    → IfSome IsValid o
    → Ensures (IfSome IsValid) (deferred_row o attempt cycle t)
unfolding deferred_row
deferred_row-IsValid none attempt cycle t v = tt
deferred_row-IsValid (some r) attempt cycle t v =
    Ensures-map (IfSome (Defers r)) (IfSome IsValid) _ (Defers-IsValid r)
      (defer_row-Defers r attempt cycle t v)

find_row-IsValid : (k : ℕ) (table : Table) → AllValid table → IfSome IsValid (find_row k table)
find_row-IsValid k table vs = go (find_row k table) refl
  where
    go : (o : Option Row) → find_row k table ≡ o → IfSome IsValid o
    go none e = tt
    go (some r) e = (find_first-All IsValid _ table r vs e).0

pub defer_for_sequence_gap-AllValid :
    (claim : EventDeliveryClaim) (t : ℕ) (table : Table)
    → AllValid table
    → Ensures Kept (defer_for_sequence_gap claim t table)
unfolding defer_for_sequence_gap
defer_for_sequence_gap-AllValid claim t table vs =
    Ensures->>= (IfSome IsValid) Kept _ _
      (deferred_row-IsValid (find_row claim.delivery_id table) claim.attempt claim.repair_cycle t
        (find_row-IsValid claim.delivery_id table vs))
      λ o h. keep_row-AllValid table o h vs

IsValid-postpone : (r : Row) (t : ℕ) → IsValid r → IsValid (record r { next_attempt_at = t })
IsValid-postpone r t v = ground arith

pub wake_attempt_successors-AllValid :
    (w : Wire) (row : Row) (t : ℕ) (table : Table)
    → AllValid table
    → AllValid (wake_attempt_successors w row t table)
unfolding wake_attempt_successors
wake_attempt_successors-AllValid w row t table vs =
    All-update_where IsValid _ _ (λ r hit v. IsValid-postpone r t v) table vs

create-Ensures : (P : Row → Type 0) (r : Row) → (IsStorable r → P r) → Ensures P (create r)
create-Ensures P r f =
    Ensures-intro P (create r)
      λ s e. subst P (sym (create-IsStorable r e).0) (f (create-IsStorable r e).1)

existing_or_new-AllValid :
    (w : Wire) (event_id new_id t : ℕ) (envelope : Envelope) (table : Table) (o : Option Row)
    → AllValid table
    → Ensures Kept (existing_or_new w event_id new_id t envelope table o)
unfolding existing_or_new
existing_or_new-AllValid w event_id new_id t envelope table none vs =
    Ensures->>= IsValid Kept _ _ (create-Ensures IsValid _ λ s. ground arith) λ r v. (v, vs)
existing_or_new-AllValid w event_id new_id t envelope table (some existing) vs =
    elim (Bool-cases (text_eq existing.fingerprint envelope.fingerprint)) [
      | inl c ↦ rw c vs
      | inr c ↦ rw c tt
    ]

enqueue_built-AllValid :
    (w : Wire) (event_id new_id t : ℕ) (table : Table) (o : Option Envelope)
    → AllValid table
    → Ensures Kept (enqueue_built w event_id new_id t table o)
unfolding enqueue_built
enqueue_built-AllValid w event_id new_id t table none vs = vs
enqueue_built-AllValid w event_id new_id t table (some envelope) vs =
    existing_or_new-AllValid w event_id new_id t envelope table _ vs

pub enqueue_event_delivery-AllValid :
    (w : Wire) (event_id new_id t : ℕ) (table : Table)
    → AllValid table
    → Ensures Kept (enqueue_event_delivery w event_id new_id t table)
unfolding enqueue_event_delivery
enqueue_event_delivery-AllValid w event_id new_id t table vs =
    Ensures->>= (λ _. Unit {0}) Kept _ _
      (Ensures-intro (λ _. Unit {0}) (w.build_event_envelope event_id) λ _ _. tt)
      λ o _. enqueue_built-AllValid w event_id new_id t table o vs
