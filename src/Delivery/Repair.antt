-- ===== src/Delivery/Repair.antt =====
-- The repair of a row whose attempts are used up: `_rebuild_delivery_envelope`, `_park_exhausted`
-- and `_transition_to_repair` of backend/runtime/services/event_delivery.py.
use allies_foundry.Base.{
  ℕ, ◌+◌, String, Bool, true, false, ◌&&◌, ◌||◌, not, Option, none, List, [], ◌∷◌, leb, ◌==◌,
  if◌then◌else◌, text_eq, bytes_eq, codes, length, every, RuntimeDomainError, Result, ok, err,
  ◌>>=◌, ◌>>◌, refuse, ensure, or_raise, validation, conflict, is_conflict,
}
use allies_foundry.Delivery.Row.{
  Row, pending, exhausted, seconds, is_terminal, save, max_automatic_repair_cycles,
}

pub record Envelope : Type 0 where
  pub encoded : List ℕ
  pub fingerprint : String

-- What one transaction of the outbox takes from elsewhere, by the key of an event: whether it is
-- retained, its wire form (`build_event_envelope` of backend/runtime/contracts.py, on the rows of the
-- event, its attempt and its execution as this transaction finds them), its attempt, its sequence
-- number and its public identity; and Python's tests of one character. Another transaction may find
-- other rows, and so another record of this type.
pub record Wire : Type 0 where
  pub retained : ℕ → Bool
  pub build_event_envelope : ℕ → Result (Option Envelope)
  pub attempt_of : ℕ → ℕ
  pub sequence_of : ℕ → ℕ
  pub public_id : ℕ → ℕ
  pub is_lower : ℕ → Bool
  pub is_alnum : ℕ → Bool

unfoldable pub safe_codes : Wire → List ℕ → Bool
unfolding every
safe_codes w [] = false
safe_codes w (c ∷ cs) =
    leb (length (c ∷ cs)) 64
    && w.is_lower c
    && every (λ d. w.is_alnum d || d == b'_' || d == b'-') (c ∷ cs)

-- `_safe_error_code`.
unfoldable pub is_safe_error_code : Wire → String → Bool
unfolding safe_codes
is_safe_error_code w value = safe_codes w (codes value)

unfoldable pub rebuild_delivery_envelope : Wire → Row → Result (List ℕ)
rebuild_delivery_envelope w row = do
  ensure (w.retained row.event_id) conflict
  built ← w.build_event_envelope row.event_id
  envelope ← or_raise built conflict
  ensure (text_eq envelope.fingerprint row.fingerprint) conflict
  refuse (row.byte_length == 0 && not (is_terminal row.state)) conflict
  refuse (not (row.byte_length == 0) && not (bytes_eq row.envelope_bytes envelope.encoded)) conflict
  ok envelope.encoded

unfoldable pub park_exhausted : Row → Row → String → Result Row
park_exhausted stored row code = save stored (record row {
  state = exhausted;
  lease_expires_at = none;
  safe_error_code = code;
  envelope_bytes = [];
  byte_length = 0;
})

-- `except (RuntimeConflictError, RuntimeValidationError)`.
unfoldable pub is_caught : RuntimeDomainError → Bool
unfolding is_conflict
is_caught validation = true
is_caught e = is_conflict e

-- The body of that clause; another exception leaves the transaction.
unfoldable pub recover : Row → Row → RuntimeDomainError → Result (Row × Bool)
recover stored row e =
    if is_caught e
    then (park_exhausted stored row "delivery_source_invalid" >>= λ parked. ok (parked, false))
    else err e

unfoldable pub next_cycle : Row → Row → ℕ → String → List ℕ → Result (Row × Bool)
next_cycle stored row observed_at code encoded =
    if leb max_automatic_repair_cycles row.repair_cycle
    then (park_exhausted stored row "delivery_repair_exhausted" >>= λ parked. ok (parked, false))
    else (save stored (record row {
      repair_cycle = row.repair_cycle + 1;
      delivery_attempts = 0;
      state = pending;
      envelope_bytes = encoded;
      byte_length = length encoded;
      lease_expires_at = none;
      next_attempt_at = observed_at + seconds 300;
      safe_error_code = code;
      delivered_at = none;
    })
        >>= λ saved. ok (saved, true))

unfoldable pub after_rebuild : Row → Row → ℕ → String → Result (List ℕ) → Result (Row × Bool)
unfolding recover next_cycle
after_rebuild stored row observed_at code (ok encoded) =
    next_cycle stored row observed_at code encoded
after_rebuild stored row observed_at code (err e) = recover stored row e

-- `stored` is the row of the table, `row` the object in memory with the changes not yet saved.
unfoldable pub transition_to_repair : Wire → Row → Row → ℕ → String → Result (Row × Bool)
unfolding after_rebuild
transition_to_repair w stored row observed_at code =
    let code' = if is_safe_error_code w code then code else "delivery_failed" in
    after_rebuild stored row observed_at code' (rebuild_delivery_envelope w row)
