-- ===== src/Delivery/Row.antt =====
-- A row of the outbox and its `save` (backend/runtime/models.py, ExecutionEventDelivery). Times are
-- microseconds, bytes and code points are numbers, identifiers are opaque numbers.
use allies_foundry.Base.{
  ℕ, ◌*◌, String, Bool, true, false, ◌&&◌, ◌||◌, not, Option, List, [], ◌∷◌, ltb, leb, ◌==◌,
  text_eq, bytes_eq, codes, length, Result, ok, ◌>>◌, ensure, refuse, validation, conflict, every,
}

pub data EventDeliveryState : Type 0 where
  pending delivering delivered exhausted : EventDeliveryState

pub record Row : Type 0 where
  pub id : ℕ
  pub event_id : ℕ
  pub envelope_bytes : List ℕ
  pub byte_length : ℕ
  pub fingerprint : String
  pub state : EventDeliveryState
  pub repair_cycle : ℕ
  pub delivery_attempts : ℕ
  pub lease_expires_at : Option ℕ
  pub next_attempt_at : ℕ
  pub safe_error_code : String
  pub delivered_at : Option ℕ
  pub sequence_gap_since : Option ℕ
  pub created_at : ℕ

abbrev pub seconds : ℕ → ℕ
seconds n = n * 1000000

abbrev pub max_delivery_attempts : ℕ
max_delivery_attempts = 8

abbrev pub max_automatic_repair_cycles : ℕ
max_automatic_repair_cycles = 3

-- `row.state in {DELIVERED, EXHAUSTED}`.
abbrev pub is_terminal : EventDeliveryState → Bool
is_terminal delivered = true
is_terminal exhausted = true
is_terminal _ = false

abbrev pub is_pending : EventDeliveryState → Bool
is_pending pending = true
is_pending _ = false

abbrev pub is_delivering : EventDeliveryState → Bool
is_delivering delivering = true
is_delivering _ = false

abbrev pub is_exhausted : EventDeliveryState → Bool
is_exhausted exhausted = true
is_exhausted _ = false

unfoldable pub is_ascii_lower : ℕ → Bool
is_ascii_lower c = leb b'a' c && leb c b'z'

unfoldable pub is_digit : ℕ → Bool
is_digit c = leb b'0' c && leb c b'9'

-- The expression `[a-z][a-z0-9_-]{0,63}` that a stored error code has to match.
unfoldable pub code_pattern : List ℕ → Bool
unfolding is_ascii_lower is_digit every
code_pattern [] = false
code_pattern (c ∷ cs) =
    is_ascii_lower c
    && leb (length cs) 63
    && every (λ d. is_ascii_lower d || is_digit d || d == b'_' || d == b'-') cs

unfoldable pub is_hex : ℕ → Bool
unfolding is_digit
is_hex c = is_digit c || leb b'a' c && leb c b'f'

-- The expression `canonical-json-sha256:v1:[0-9a-f]{64}`, the prefix given by its code points.
unfoldable pub after_prefix : List ℕ → List ℕ → Bool
unfolding is_hex every
after_prefix [] cs = length cs == 64 && every is_hex cs
after_prefix (p ∷ ps) [] = false
after_prefix (p ∷ ps) (c ∷ cs) = p == c && after_prefix ps cs

unfoldable pub fingerprint_pattern : String → Bool
unfolding after_prefix
fingerprint_pattern s = after_prefix (codes "canonical-json-sha256:v1:") (codes s)

-- The checks of `save` that a new row meets too.
unfoldable pub create : Row → Result Row
create row = do
  ensure
      (is_terminal row.state && bytes_eq row.envelope_bytes []
        || ltb 0 (length row.envelope_bytes) && leb (length row.envelope_bytes) 65536)
      validation
  ensure (row.byte_length == length row.envelope_bytes) validation
  ensure (fingerprint_pattern row.fingerprint) validation
  ensure (leb row.delivery_attempts 8) validation
  refuse (not (text_eq row.safe_error_code "") && not (code_pattern (codes row.safe_error_code)))
      validation
  ok row

-- `save`: the wire envelope of a stored row is immutable, but for its erasure in a terminal state
-- and for its return in a later repair cycle.
unfoldable pub save : Row → Row → Result Row
unfolding create
save previous row = do
  let identity_changed =
      not (previous.event_id == row.event_id) || not (text_eq previous.fingerprint row.fingerprint)
  let payload_changed =
      not (bytes_eq previous.envelope_bytes row.envelope_bytes)
      || not (previous.byte_length == row.byte_length)
  let terminal_erasure = is_terminal row.state && bytes_eq row.envelope_bytes []
  let repair_rehydration =
      is_exhausted previous.state
      && is_pending row.state
      && previous.byte_length == 0
      && ltb 0 row.byte_length
      && ltb previous.repair_cycle row.repair_cycle
  refuse
      (identity_changed
        || payload_changed && not (terminal_erasure && row.byte_length == 0 || repair_rehydration))
      conflict
  create row
