-- ===== src/Delivery/Marking.antt =====
-- The life of one claimed row: the claim, its mark after the POST, and the wait for a missing
-- predecessor (backend/runtime/services/event_delivery.py).
use allies_foundry.Base.{
  ℕ, ◌+◌, ◌-◌, ◌*◌, ◌/◌, ◌^◌, min, String, Bool, ◌&&◌, ◌||◌, not, Option, none, some, [], ltb, leb,
  ◌==◌, if◌then◌else◌, text_eq, Result, ok, ◌>>=◌, ◌>>◌, refuse, validation,
}
use allies_foundry.Delivery.Row.{
  Row, pending, delivering, delivered, exhausted, seconds, is_delivering, save,
  max_delivery_attempts,
}
use allies_foundry.Delivery.Repair.{Wire, is_safe_error_code, transition_to_repair}

-- One turn of the loop over the due rows in `claim_event_deliveries`.
unfoldable pub claim_row : ℕ → Row → Result Row
claim_row observed_at row = save row (record row {
  state = delivering;
  delivery_attempts = row.delivery_attempts + 1;
  lease_expires_at = some (observed_at + seconds 60);
})

-- In microseconds; `jitter` is `random.random()` in millionths. On ℕ `attempt - 1` stops at 0.
unfoldable pub backoff : ℕ → ℕ → ℕ
backoff attempt jitter = let base = min 300 (2 ^ (attempt - 1)) in seconds base + base * jitter / 4

-- The claim that a publisher holds on a row.
abbrev pub is_current : Row → ℕ → ℕ → Bool
is_current row attempt cycle =
    is_delivering row.state && row.delivery_attempts == attempt && row.repair_cycle == cycle

unfoldable pub mark_success : Row → ℕ → Result Row
mark_success row observed_at = save row (record row {
  state = delivered;
  delivered_at = some observed_at;
  sequence_gap_since = none;
  lease_expires_at = none;
  safe_error_code = "";
  envelope_bytes = [];
  byte_length = 0;
})

-- The failure of a claim; `row` has its code set and its lease cleared, and `stored` has not.
unfoldable pub settle_failure : Wire → Row → Row → Bool → ℕ → ℕ → Result Row
settle_failure w stored row terminal observed_at jitter =
    if terminal
    then save stored (record row { state = exhausted; envelope_bytes = []; byte_length = 0 })
    else if leb max_delivery_attempts row.delivery_attempts
    then (transition_to_repair w stored row observed_at row.safe_error_code >>= λ moved. ok moved.0)
    else save stored (record row {
      state = pending;
      next_attempt_at = observed_at + backoff row.delivery_attempts jitter;
    })

unfoldable pub mark_failure : Wire → Row → String → Bool → ℕ → ℕ → Result Row
unfolding settle_failure
mark_failure w row code terminal observed_at jitter = do
  refuse (not (text_eq code "") && not (is_safe_error_code w code)) validation
  let code' = if text_eq code "" then "delivery_failed" else code
  settle_failure w row (record row { safe_error_code = code'; lease_expires_at = none }) terminal
      observed_at jitter

pub data Outcome : Type 0 where
  success : Outcome
  failure : String → Bool → Outcome

unfoldable pub settle : Wire → Row → Outcome → ℕ → ℕ → Result Row
unfolding mark_success mark_failure
settle w row success observed_at jitter = mark_success row observed_at
settle w row (failure code terminal) observed_at jitter =
    mark_failure w row code terminal observed_at jitter

-- `mark_event_delivery` on the locked row: `none` where the claim is no longer the current one.
unfoldable pub mark_row : Wire → Row → ℕ → ℕ → Outcome → ℕ → ℕ → Result (Option Row)
unfolding settle
mark_row w row attempt cycle outcome observed_at jitter =
    if is_current row attempt cycle
    then (settle w row outcome observed_at jitter >>= λ saved. ok (some saved))
    else ok none

abbrev pub or_now : Option ℕ → ℕ → ℕ
or_now none now = now
or_now (some t) now = t

-- `_defer_for_sequence_gap` on the locked row: `none` where it returns False. A difference of
-- times that is negative in Python is 0 here, and is no longer than the patience either way.
unfoldable pub defer_row : Row → ℕ → ℕ → ℕ → Result (Option Row)
defer_row row attempt cycle observed_at =
    let gap_since = or_now row.sequence_gap_since observed_at in
    if not (is_current row attempt cycle) || ltb (seconds 1800) (observed_at - gap_since)
    then ok none
    else (save row (record row {
      state = pending;
      delivery_attempts = attempt - 1;
      lease_expires_at = none;
      next_attempt_at = observed_at + seconds 15;
      safe_error_code = "sequence_gap";
      sequence_gap_since = some gap_since;
    })
        >>= λ saved. ok (some saved))
