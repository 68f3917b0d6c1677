-- ===== src/Delivery/Validity.antt =====
-- What holds of every row of the outbox between two transactions.
use allies_foundry.Base.{
  ℕ, ◌≤◌, ◌<◌, ◌≡◌, refl, sym, true, false, ◌||◌, subst, List, [], ◌∷◌, arith, text_eq, bytes_eq,
  codes, length, ok, is_some, Ensures, Ensures-intro,
}
use allies_foundry.Delivery.Row.{
  Row, is_terminal, is_delivering, is_pending, create, save, code_pattern, fingerprint_pattern,
}

-- What `save` demands of the row that it stores.
pub record IsStorable (r : Row) : Type 0 where
  pub length_exact : r.byte_length ≡ length r.envelope_bytes
  pub bounded : length r.envelope_bytes ≤ 65536
  pub kept : is_terminal r.state ≡ false → 0 < length r.envelope_bytes
  pub fingerprint_form : fingerprint_pattern r.fingerprint ≡ true
  pub code_form : (text_eq r.safe_error_code "" || code_pattern (codes r.safe_error_code)) ≡ true
  pub attempts_bounded : r.delivery_attempts ≤ 8

-- What the operations add: erasure in the terminal states, a lease exactly while delivering, and a
-- budget that is spent by claims only.
pub record IsLive (r : Row) : Type 0 where
  pub erased : is_terminal r.state ≡ true → r.envelope_bytes ≡ []
  pub leased : is_some r.lease_expires_at ≡ is_delivering r.state
  pub pending_budget : is_pending r.state ≡ true → r.delivery_attempts < 8
  pub delivering_claimed : is_delivering r.state ≡ true → 0 < r.delivery_attempts

pub record IsValid (r : Row) : Type 0 where
  pub storable : IsStorable r
  pub live : IsLive r

bytes_eq_nil : (xs : List ℕ) → bytes_eq xs [] ≡ true → length xs ≡ 0
unfolding bytes_eq
bytes_eq_nil [] h = refl
bytes_eq_nil (x ∷ xs) h = cc

pub save-IsStorable : (p r : Row) {s : Row} → save p r ≡ ok s → (s ≡ r) × IsStorable r
unfolding save
save-IsStorable p r h = ground (arith, bytes_eq_nil r.envelope_bytes)

-- A row that `save` accepts satisfies what follows from its being storable.
pub save-Ensures {ℓ} : (P : Row → Type ℓ) (p r : Row) → (IsStorable r → P r) → Ensures P (save p r)
save-Ensures P p r f =
    Ensures-intro P (save p r)
      λ s e. subst P (sym (save-IsStorable p r e).0) (f (save-IsStorable p r e).1)

pub create-IsStorable : (r : Row) {s : Row} → create r ≡ ok s → (s ≡ r) × IsStorable r
unfolding create
create-IsStorable r h = ground (arith, bytes_eq_nil r.envelope_bytes)
