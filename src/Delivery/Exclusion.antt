-- ===== src/Delivery/Exclusion.antt =====
-- A claimed row that is left as it is stays out of every other claim's reach until its lease has run
-- out.
use allies_foundry.Base.{
  ℕ, ◌+◌, ◌<◌, ◌≡◌, ◌≢◌, refl, sym, subst, true, false, Bool, ◌==◌, inl, inr, Bool-cases,
  All-select, false, ◌&&◌, some, List, [], ◌∷◌, arith, leb, take, select, length, All, All-map,
  All-update_where_to, ok, ensure, validation, Ensures, Ensures->>=, Ensures-ok, Ensures-×,
  Ensures-bind, ◌∙◌, ap, suc,
}
use allies_foundry.Delivery.Row.{Row, delivering, is_terminal, seconds}
use allies_foundry.Delivery.Repair.{Wire}
use allies_foundry.Delivery.Outbox.{
  Table, EventDeliveryClaim, store, is_spent, is_due, repair_rows, claim_rows,
  claim_event_deliveries,
}
use allies_foundry.Delivery.Settling.{FailsMove, Claims, repair_lem, claim_row-Claims}
use allies_foundry.Delivery.Marking.{claim_row}
use allies_foundry.Delivery.Invariant.{Selects, selected}

-- The row is being delivered under a lease that ends at `u`.
abbrev Held : ℕ → Row → Type 0
Held u r = (r.state ≡ delivering) × (r.lease_expires_at ≡ some u)

-- So is every row under the key `k`.
abbrev pub HeldKey : ℕ → ℕ → Row → Type 0
HeldKey k u r = r.id ≡ k → Held u r

store-HeldKey :
    (k u : ℕ) (s : Row) (table : Table)
    → HeldKey k u s
    → All (HeldKey k u) table
    → All (HeldKey k u) (store s table)
store-HeldKey k u s table h hs =
    All-update_where_to (HeldKey k u) (HeldKey k u) _ _ (λ x hit p. h) (λ x miss p. p) table hs

-- A new claim makes its key a held one.
store-claimed : (u : ℕ) (s : Row) (table : Table) → Held u s → All (HeldKey s.id u) (store s table)
store-claimed u s table h =
    All-update_where_to (λ _. Unit {0}) (HeldKey s.id u) _ _ (λ x hit p e. h)
      (λ x miss p e. ground arith) table (All-trivial table)
  where
    All-trivial : (xs : Table) → All (λ _. Unit {0}) xs
    All-trivial [] = tt
    All-trivial (x ∷ xs) = (tt, All-trivial xs)

abbrev IsOpen : Row → Type 0
IsOpen r = (is_terminal r.state ≡ false) × (r.delivery_attempts < 8)

claim_rows-HeldKey :
    (k t : ℕ) (rs : List Row) (table : Table)
    → All IsOpen rs
    → All (HeldKey k (t + seconds 60)) table
    → Ensures
        (λ (done : Table × List EventDeliveryClaim). All (HeldKey k (t + seconds 60)) done.0)
        (claim_rows t rs table)
unfolding claim_rows
claim_rows-HeldKey k t [] table os hs = hs
claim_rows-HeldKey k t (r ∷ rs) table os hs =
    Ensures->>= (Claims t r) _ _ _ (claim_row-Claims t r os.0.0 os.0.1) λ s c.
      Ensures->>=
        (λ (done : Table × List EventDeliveryClaim). All (HeldKey k (t + seconds 60)) done.0) _ _ _
        (claim_rows-HeldKey k t rs (store s table) os.1
          (store-HeldKey k _ s table (λ _. (c.claimed, c.leased_until)) hs))
        λ done h. h

-- Each claim of the batch holds its key when the batch is done.
abbrev AllHeld : ℕ → Table × List EventDeliveryClaim → Type 0
AllHeld u done = All (λ c. All (HeldKey c.delivery_id u) done.0) done.1

claim_rows-AllHeld :
    (t : ℕ) (rs : List Row) (table : Table)
    → All IsOpen rs
    → Ensures (AllHeld (t + seconds 60)) (claim_rows t rs table)
unfolding claim_rows
claim_rows-AllHeld t [] table os = tt
claim_rows-AllHeld t (r ∷ rs) table os =
    Ensures->>= (Claims t r) _ _ _ (claim_row-Claims t r os.0.0 os.0.1) λ s c.
      Ensures->>=
        (λ (done : Table × List EventDeliveryClaim).
          All (HeldKey s.id (t + seconds 60)) done.0 × AllHeld (t + seconds 60) done)
        _ _ _
        (Ensures-× _ _ (claim_rows t rs (store s table))
          (claim_rows-HeldKey s.id t rs (store s table) os.1
            (store-claimed _ s table (c.claimed, c.leased_until)))
          (claim_rows-AllHeld t rs (store s table) os.1))
        λ done h. h

-- While the lease runs, a row under the key is neither spent nor due.
held_not_spent : (k u t : ℕ) (r : Row) → t < u → HeldKey k u r → is_spent t r ≡ true → r.id ≢ k
held_not_spent k u t r lt h e same = ground (arith, h same)

held_not_due : (k u t : ℕ) (r : Row) → t < u → HeldKey k u r → is_due t r ≡ true → r.id ≢ k
held_not_due k u t r lt h e same = ground (arith, h same)

repair_rows-HeldKey :
    (w : Wire) (k u t : ℕ) (rs : List Row) (table : Table)
    → t < u
    → All (λ r. HeldKey k u r × (is_spent t r ≡ true)) rs
    → All (HeldKey k u) table
    → Ensures (All (HeldKey k u)) (repair_rows w t rs table)
unfolding repair_rows
repair_rows-HeldKey w k u t [] table lt ss hs = hs
repair_rows-HeldKey w k u t (r ∷ rs) table lt ss hs =
    Ensures->>= (FailsMove r) _ _ _
      (repair_lem w r t "delivery_lease_expired" (ground (arith, ss.0.1)) (ground (arith, ss.0.1)))
      λ moved f. repair_rows-HeldKey w k u t rs (store moved.0 table) lt ss.1 (
        store-HeldKey k u moved.0 table
          (λ same. absurd (held_not_spent k u t r lt ss.0.0 ss.0.1 (sym f.settles.same_id ∙ same)))
          hs)

claim_rows-avoids :
    (k t : ℕ) (rs : List Row) (table : Table)
    → All IsOpen rs
    → All (λ r. r.id ≢ k) rs
    → Ensures
        (λ (done : Table × List EventDeliveryClaim). All (λ c. c.delivery_id ≢ k) done.1)
        (claim_rows t rs table)
unfolding claim_rows
claim_rows-avoids k t [] table os ns = tt
claim_rows-avoids k t (r ∷ rs) table os ns =
    Ensures->>= (Claims t r) _ _ _ (claim_row-Claims t r os.0.0 os.0.1) λ s c.
      Ensures->>=
        (λ (done : Table × List EventDeliveryClaim). All (λ c'. c'.delivery_id ≢ k) done.1) _ _ _
        (claim_rows-avoids k t rs (store s table) os.1 ns.1)
        λ done h. ((λ e. ns.0 (sym c.same_id ∙ e)), h)

IsOpen-of_due : (t : ℕ) (r : Row) → Unit {0} × (is_due t r ≡ true) → IsOpen r
IsOpen-of_due t r h = ground (arith, h.1)

All-any : (xs : Table) → All (λ _. Unit {0}) xs
All-any [] = tt
All-any (x ∷ xs) = (tt, All-any xs)

-- The rows that a batch claims are open.
due_rows-IsOpen :
    (order : List Row → List Row) (limit t : ℕ) (table : Table)
    → Selects order
    → All IsOpen (take limit (order (select (is_due t) table)))
due_rows-IsOpen order limit t table sel =
    All-map (λ r. Unit {0} × (is_due t r ≡ true)) IsOpen (IsOpen-of_due t) _
      (selected order limit (λ _. Unit {0}) (is_due t) table sel (All-any table))

claim-AllHeld :
    (w : Wire) (order : List Row → List Row) (limit t : ℕ) (table : Table)
    → Selects order
    → Ensures (AllHeld (t + seconds 60)) (claim_event_deliveries w order limit t table)
unfolding claim_event_deliveries
claim-AllHeld w order limit t table sel =
    Ensures-bind (AllHeld (t + seconds 60)) (ensure (leb 1 limit && leb limit 20) validation) _ λ _.
      Ensures-bind (AllHeld (t + seconds 60))
        (repair_rows w t (take limit (order (select (is_spent t) table))) table) _
        λ repaired. claim_rows-AllHeld t _ repaired (due_rows-IsOpen order limit t repaired sel)

abbrev Avoids : ℕ → Table × List EventDeliveryClaim → Type 0
Avoids k done = All (λ c. c.delivery_id ≢ k) done.1

claim-Avoids :
    (w : Wire) (order : List Row → List Row) (limit k u t : ℕ) (table : Table)
    → Selects order
    → t < u
    → All (HeldKey k u) table
    → Ensures (Avoids k) (claim_event_deliveries w order limit t table)
unfolding claim_event_deliveries
claim-Avoids w order limit k u t table sel lt hs =
    Ensures-bind (Avoids k) (ensure (leb 1 limit && leb limit 20) validation) _ λ _.
      Ensures->>= (All (HeldKey k u)) (Avoids k) _ _
        (repair_rows-HeldKey w k u t _ table lt
          (selected order limit (HeldKey k u) (is_spent t) table sel hs) hs)
        λ repaired rhs.
          claim_rows-avoids k t _ repaired (due_rows-IsOpen order limit t repaired sel) (
            All-map (λ r. HeldKey k u r × (is_due t r ≡ true)) (λ r. r.id ≢ k)
              (λ r h. held_not_due k u t r lt h.0 h.1) _
              (selected order limit (HeldKey k u) (is_due t) repaired sel rhs))

-- The rows under a key.
abbrev pub rows_under : ℕ → Table → List Row
rows_under k table = select (λ r. r.id == k) table

selected-HeldKey :
    (k u : ℕ) (table : Table) → All (HeldKey k u) table → All (HeldKey k u) (rows_under k table)
selected-HeldKey k u table h =
    All-map (λ r. HeldKey k u r × ((r.id == k) ≡ true)) (HeldKey k u) (λ r g. g.0) _
      (All-select (HeldKey k u) (λ r. r.id == k) table h)

select_hit :
    (p : Row → Bool) (r : Row) (rs : List Row) → p r ≡ true → select p (r ∷ rs) ≡ r ∷ select p rs
select_hit p r rs e = rw e refl

select_miss :
    (p : Row → Bool) (r : Row) (rs : List Row) → p r ≡ false → select p (r ∷ rs) ≡ select p rs
select_miss p r rs e = rw e refl

HeldKey-selected :
    (k u : ℕ) (table : Table) → All (HeldKey k u) (rows_under k table) → All (HeldKey k u) table
HeldKey-selected k u [] h = tt
HeldKey-selected k u (r ∷ rs) h = elim (Bool-cases (r.id == k)) [
  | inl hit ↦
      let both : All (HeldKey k u) (r ∷ rows_under k rs) =
        subst (All (HeldKey k u)) (select_hit (λ r. r.id == k) r rs hit) h in
      (both.0, HeldKey-selected k u rs both.1)
  | inr miss ↦ (
    (λ e. ground (arith, miss, e)),
    HeldKey-selected k u rs (subst (All (HeldKey k u)) (select_miss (λ r. r.id == k) r rs miss) h),
  )
]

-- If a call of `claim_event_deliveries` at `t` claims a row, and a later call, by any worker and with
-- any limit, comes less than sixty seconds after `t`, then the later call does not claim the row,
-- whatever transactions came between the two, provided that they left the row itself as the first
-- call did: that nobody marked, deferred or redrove it. The rows that the later call repairs on its
-- way are covered too.
pub claims_exclusive :
    (w later_w : Wire) (order : List Row → List Row) (limit later_limit t t' k : ℕ)
    (before left between after : Table) (cs later : List EventDeliveryClaim)
    → Selects order
    → claim_event_deliveries w order limit t before ≡ ok (left, cs)
    → rows_under k between ≡ rows_under k left
    → claim_event_deliveries later_w order later_limit t' between ≡ ok (after, later)
    → t' < t + seconds 60
    → All (λ c. c.delivery_id ≡ k → All (λ c'. c'.delivery_id ≢ k) later) cs
claims_exclusive w later_w order limit later_limit t t' k before left between after cs later sel e
      same e' lt =
    All-map (λ c. All (HeldKey c.delivery_id (t + seconds 60)) left)
      (λ c. c.delivery_id ≡ k → All (λ c'. c'.delivery_id ≢ k) later)
      (λ c held is_k.
        let own = subst (λ i. All (HeldKey i (t + seconds 60)) left) is_k held in
        let kept = HeldKey-selected k (t + seconds 60) between (
          subst (All (HeldKey k (t + seconds 60))) (sym same)
            (selected-HeldKey k (t + seconds 60) left own)) in
        Ensures-ok (Avoids k) _
          (claim-Avoids later_w order later_limit k (t + seconds 60) t' between sel lt kept) e')
      cs (Ensures-ok (AllHeld (t + seconds 60)) _ (claim-AllHeld w order limit t _ sel) e)

pub claim_rows-length :
    (t : ℕ) (rs : List Row) (table : Table)
    → Ensures
        (λ (done : Table × List EventDeliveryClaim). length done.1 ≡ length rs)
        (claim_rows t rs table)
unfolding claim_rows
claim_rows-length t [] table = refl
claim_rows-length t (r ∷ rs) table = Ensures-bind _ (claim_row t r) _ λ s.
    Ensures->>= (λ (done : Table × List EventDeliveryClaim). length done.1 ≡ length rs) _ _ _
      (claim_rows-length t rs (store s table)) λ done h. ap suc h
