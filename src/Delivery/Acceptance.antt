-- ===== src/Delivery/Acceptance.antt =====
-- When `save` accepts a row, and when a mark raises.
use allies_foundry.Base.{
  ℕ, ◌+◌, ◌<◌, String, ◌≡◌, Bool, true, false, none, some, List, [], ◌⊎◌, inl, inr, arith, text_eq,
  text_eq_refl, bytes_eq, bytes_eq_refl, codes, ok, err, validation, Bool-cases,
}
use allies_foundry.Delivery.Row.{
  Row, pending, exhausted, create, save, code_pattern, is_terminal, is_delivering,
}
use allies_foundry.Delivery.Repair.{Wire, is_safe_error_code}
use allies_foundry.Delivery.Marking.{
  failure, mark_row, settle, settle_failure, mark_failure, is_current, backoff,
}
use allies_foundry.Delivery.Validity.{IsStorable, IsValid}

-- The new version of a row keeps its envelope, or is terminal and erases it.
record Rewrites (p r : Row) : Type 0 where
  same_event : r.event_id ≡ p.event_id
  same_fingerprint : r.fingerprint ≡ p.fingerprint
  envelope :
      ((r.envelope_bytes ≡ p.envelope_bytes) × (r.byte_length ≡ p.byte_length))
      ⊎ ((is_terminal r.state ≡ true) × (r.envelope_bytes ≡ []) × (r.byte_length ≡ 0))

same_text : (s t : String) → s ≡ t → text_eq t s ≡ true
same_text s t e = rw e (text_eq_refl t)

same_bytes : (xs ys : List ℕ) → xs ≡ ys → bytes_eq ys xs ≡ true
same_bytes xs ys e = rw e (bytes_eq_refl ys)

nil_bytes : (xs : List ℕ) → xs ≡ [] → bytes_eq xs [] ≡ true
nil_bytes xs e = rw e (bytes_eq_refl [])

-- Only the checks that a new row meets too can refuse such a version.
save-create : (p r : Row) → Rewrites p r → save p r ≡ create r
unfolding save
save-create p r h = ground (
  arith,
  same_text r.fingerprint p.fingerprint h.same_fingerprint,
  same_bytes r.envelope_bytes p.envelope_bytes,
  nil_bytes r.envelope_bytes,
)

create-ok : (r : Row) → IsStorable r → create r ≡ ok r
unfolding create
create-ok r s = elim (Bool-cases (text_eq r.safe_error_code "")) [
  | inl e ↦ ground (arith, nil_bytes r.envelope_bytes)
  | inr e ↦ ground (arith, nil_bytes r.envelope_bytes)
]

-- A code that the table does not take is refused, however well formed the rest of the row is.
create-refuses :
    (r : Row)
    → text_eq r.safe_error_code "" ≡ false
    → code_pattern (codes r.safe_error_code) ≡ false
    → create r ≡ err validation
unfolding create
create-refuses r n c = ground arith

-- The row that a failed mark would store.
pub failure_row : Row → String → Bool → ℕ → Row
failure_row p code true next = record p {
  safe_error_code = code;
  lease_expires_at = none;
  state = exhausted;
  envelope_bytes = [];
  byte_length = 0;
}
failure_row p code false next = record p {
  safe_error_code = code;
  lease_expires_at = none;
  state = pending;
  next_attempt_at = next;
}

failure_row-Rewrites :
    (p : Row) (code : String) (terminal : Bool) (next : ℕ)
    → Rewrites p (failure_row p code terminal next)
unfolding failure_row
failure_row-Rewrites p code true next = ground arith
failure_row-Rewrites p code false next = ground arith

failure_row-IsStorable :
    (p : Row) (code : String) (terminal : Bool) (next : ℕ)
    → IsValid p
    → text_eq code "" ≡ false
    → code_pattern (codes code) ≡ true
    → is_delivering p.state ≡ true
    → IsStorable (failure_row p code terminal next)
unfolding failure_row
failure_row-IsStorable p code true next v n k d = ground arith
failure_row-IsStorable p code false next v n k d = ground arith

create-refuses-failure :
    (p : Row) (code : String) (terminal : Bool) (next : ℕ)
    → text_eq code "" ≡ false
    → code_pattern (codes code) ≡ false
    → create (failure_row p code terminal next) ≡ err validation
unfolding failure_row
create-refuses-failure p code true next n k = create-refuses (failure_row p code true next) n k
create-refuses-failure p code false next n k = create-refuses (failure_row p code false next) n k

-- With attempts left, or for good, a failed mark of the current claim saves that row.
mark_failure-create :
    (w : Wire) (p : Row) (code : String) (terminal : Bool) (t jitter : ℕ)
    → text_eq code "" ≡ false
    → is_safe_error_code w code ≡ true
    → (terminal ≡ true) ⊎ (p.delivery_attempts < 8)
    → mark_failure w p code terminal t jitter
      ≡ create (failure_row p code terminal (t + backoff p.delivery_attempts jitter))
unfolding mark_failure settle_failure failure_row
mark_failure-create w p code true t jitter n s d =
    rw (n, s) (save-create p _ (failure_row-Rewrites p code true 0))
mark_failure-create w p code false t jitter n s d =
    rw (n, s)
      (ground (
        arith,
        save-create p _
            (failure_row-Rewrites p code false (t + backoff p.delivery_attempts jitter)),
      ))

-- The current claim of a valid row, marked as failed with a code that the table takes, for good or
-- with attempts left, raises nothing: the row is exhausted with its envelope erased, or pending
-- again after the backoff with its envelope kept.
pub mark_row-failure_total :
    (w : Wire) (p : Row) (attempt cycle : ℕ) (code : String) (terminal : Bool) (t jitter : ℕ)
    → IsValid p
    → is_current p attempt cycle ≡ true
    → text_eq code "" ≡ false
    → is_safe_error_code w code ≡ true
    → code_pattern (codes code) ≡ true
    → (terminal ≡ true) ⊎ (p.delivery_attempts < 8)
    → mark_row w p attempt cycle (failure code terminal) t jitter
      ≡ ok (some (failure_row p code terminal (t + backoff p.delivery_attempts jitter)))
unfolding mark_row settle
mark_row-failure_total w p attempt cycle code terminal t jitter v c n s k d =
    rw (c, mark_failure-create w p code terminal t jitter n s d)
      (rw (
        create-ok (failure_row p code terminal (t + backoff p.delivery_attempts jitter))
          (failure_row-IsStorable p code terminal _ v n k (ground arith))))

-- What the table and the service disagree on: a code that `_safe_error_code` accepts and the
-- table's pattern does not. The mark of the current claim with such a code raises, whether the
-- failure is final or attempts are left.
pub mark_row-failure_raises :
    (w : Wire) (p : Row) (attempt cycle : ℕ) (code : String) (terminal : Bool) (t jitter : ℕ)
    → is_current p attempt cycle ≡ true
    → text_eq code "" ≡ false
    → is_safe_error_code w code ≡ true
    → code_pattern (codes code) ≡ false
    → (terminal ≡ true) ⊎ (p.delivery_attempts < 8)
    → mark_row w p attempt cycle (failure code terminal) t jitter ≡ err validation
unfolding mark_row settle
mark_row-failure_raises w p attempt cycle code terminal t jitter c n s k d =
    rw (c, mark_failure-create w p code terminal t jitter n s d)
      (rw (create-refuses-failure p code terminal (t + backoff p.delivery_attempts jitter) n k))
