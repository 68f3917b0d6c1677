-- ===== src/Delivery/Enqueued.antt =====
-- Putting an event into the outbox a second time.
use allies_foundry.Base.{
  ℕ, ◌≡◌, refl, ◌&&◌, ◌||◌, not, true, ◌>>=◌, Option, none, some, [], ltb, leb, ◌==◌, text_eq,
  text_eq_refl, bytes_eq, codes, length, arith, find_first, Result, ok, err, ensure, refuse,
  validation, conflict, Ensures, Ensures-ok, Ensures-bind, Ensures->>=, Ensures-ensure,
}
use allies_foundry.Delivery.Row.{Row, create, is_terminal, fingerprint_pattern, code_pattern}
use allies_foundry.Delivery.Repair.{Wire, Envelope}
use allies_foundry.Delivery.Outbox.{Table, existing_or_new, enqueue_built, enqueue_event_delivery}

create-Ensures : (row : Row) → Ensures (λ r. r ≡ row) (create row)
unfolding create
create-Ensures row =
    Ensures-bind (λ r. r ≡ row)
      (ensure
        (is_terminal row.state && bytes_eq row.envelope_bytes []
          || ltb 0 (length row.envelope_bytes) && leb (length row.envelope_bytes) 65536)
        validation)
      _
      λ _.
        Ensures-bind (λ r. r ≡ row)
          (ensure (row.byte_length == length row.envelope_bytes) validation) _
          λ _.
            Ensures-bind (λ r. r ≡ row) (ensure (fingerprint_pattern row.fingerprint) validation) _
              λ _.
                Ensures-bind (λ r. r ≡ row) (ensure (leb row.delivery_attempts 8) validation) _
                  λ _.
                    Ensures-bind (λ r. r ≡ row)
                      (refuse
                        (not (text_eq row.safe_error_code "")
                          && not (code_pattern (codes row.safe_error_code)))
                        validation)
                      _ λ _. refl

module _ (w : Wire) (k d c : ℕ) where
  -- The outbox has the row of this event.
  abbrev IsThere : Envelope → Table → Type 0
  IsThere envelope t =
      (r : Row) × (find_first (λ x. x.event_id == k) t ≡ some r)
      × (text_eq r.fingerprint envelope.fingerprint ≡ true)

  existing_or_new-IsThere :
      (envelope : Envelope) (t : Table)
      → (o : Option Row) → find_first (λ x. x.event_id == k) t ≡ o
      → Ensures (λ done. IsThere envelope done.0) (existing_or_new w k d c envelope t o)
  unfolding existing_or_new find_first
  existing_or_new-IsThere envelope t (some r) e =
      Ensures-ensure (λ done. IsThere envelope done.0) (text_eq r.fingerprint envelope.fingerprint)
        conflict _ λ same. (r, e, same)
  existing_or_new-IsThere envelope t none e =
      Ensures->>= _ (λ done. IsThere envelope done.0) (create _) _ (create-Ensures _)
        λ r same. rw same (
          let self : (k == k) ≡ true = ground arith in
          rw self (_, refl, text_eq_refl envelope.fingerprint))

  existing_or_new_again :
      (d' c' : ℕ) (envelope : Envelope) (t : Table)
      → IsThere envelope t
      → (row : Option Row) × (existing_or_new w k d' c' envelope t
            (find_first (λ x. x.event_id == k) t)
          ≡ ok (t, row))
  unfolding existing_or_new
  existing_or_new_again d' c' envelope t h = rw h.1 (some h.0, rw h.2 refl)

built_again :
    (w v : Wire) (k d c d' c' : ℕ) (t u : Table) (r : Option Row) (o : Result (Option Envelope))
    → (o >>= enqueue_built w k d c t) ≡ ok (u, r)
    → (row : Option Row) × ((o >>= enqueue_built v k d' c' u) ≡ ok (u, row))
unfolding enqueue_built
built_again w v k d c d' c' t u r (err x) e = cc
built_again w v k d c d' c' t u r (ok none) e = let same : t ≡ u = cc in (none, refl)
built_again w v k d c d' c' t u r (ok (some envelope)) e =
    existing_or_new_again v k d c d' c' envelope u (
      Ensures-ok (λ done. IsThere w k d c envelope done.0) _
        (existing_or_new-IsThere w k d c envelope t (find_first (λ x. x.event_id == k) t) refl) e)

-- An event that was put into the outbox may be put there again, with any new key, while its wire form
-- is the same: this changes nothing.
pub enqueued_again :
    (w v : Wire) (k d c d' c' : ℕ) (t u : Table) (r : Option Row)
    → v.build_event_envelope k ≡ w.build_event_envelope k
    → enqueue_event_delivery w k d c t ≡ ok (u, r)
    → (row : Option Row) × (enqueue_event_delivery v k d' c' u ≡ ok (u, row))
unfolding enqueue_event_delivery
enqueued_again w v k d c d' c' t u r same e =
    let again = built_again w v k d c d' c' t u r (w.build_event_envelope k) e in
    (again.0, rw same again.1)
