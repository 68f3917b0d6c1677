-- ===== src/Delivery/Redrive.antt =====
-- The manual redrive: `redrive_event_deliveries` of backend/runtime/services/event_delivery.py, its
-- identifiers already parsed.
use allies_foundry.Base.{
  ℕ, suc, ◌+◌, Bool, ◌&&◌, not, Option, none, some, List, [], ◌∷◌, ◌++◌, ltb, ◌==◌, if◌then◌else◌,
  member, find_first, length, Result, ok, ◌>>=◌, ◌>>◌, ensure, or_raise, validation,
}
use allies_foundry.Delivery.Row.{Row, pending, is_exhausted, save}
use allies_foundry.Delivery.Repair.{Wire, rebuild_delivery_envelope}
use allies_foundry.Delivery.Outbox.{Table, store}

pub record RedriveReport : Type 0 where
  pub requested : ℕ
  pub validated : ℕ
  pub redriven : ℕ
  pub skipped : ℕ

-- `rows_by_id.get(identifier) or rows_by_event.get(identifier)`.
abbrev or_else : Option Row → Option Row → Option Row
or_else (some r) o = some r
or_else none o = o

unfoldable pub lookup_identifier : Wire → List ℕ → List ℕ → Table → ℕ → Option Row
lookup_identifier w delivery_ids event_ids table k =
    or_else (find_first (λ r. r.id == k && member r.id delivery_ids) table) (
      find_first (λ r. w.public_id r.event_id == k && member (w.public_id r.event_id) event_ids)
        table)

-- The selected rows, each once, in the order of the identifiers.
unfoldable pub gather : Wire → List ℕ → List ℕ → Table → List ℕ → List ℕ → Result (List Row)
unfolding lookup_identifier
gather w delivery_ids event_ids table [] seen = ok []
gather w delivery_ids event_ids table (k ∷ ks) seen = do
  row ← or_raise (lookup_identifier w delivery_ids event_ids table k) validation
  rest ← gather w delivery_ids event_ids table ks (row.id ∷ seen)
  ok (if member row.id seen then rest else row ∷ rest)

unfoldable pub rebuild_all : Wire → List Row → Result (List (Row × List ℕ))
rebuild_all w [] = ok []
rebuild_all w (r ∷ rs) = do
  encoded ← rebuild_delivery_envelope w r
  rest ← rebuild_all w rs
  ok ((r, encoded) ∷ rest)

unfoldable pub redrive_row : ℕ → Row → List ℕ → Result Row
redrive_row observed_at row encoded = save row (record row {
  repair_cycle = row.repair_cycle + 1;
  delivery_attempts = 0;
  state = pending;
  envelope_bytes = encoded;
  byte_length = length encoded;
  lease_expires_at = none;
  next_attempt_at = observed_at;
  delivered_at = none;
  safe_error_code = "manual_redrive";
  sequence_gap_since = none;
})

-- The loop under `if confirm`, with the counts of redriven and skipped rows.
unfoldable pub redrive_rows : ℕ → List (Row × List ℕ) → Table → Result (Table × ℕ × ℕ)
redrive_rows observed_at [] table = ok (table, 0, 0)
redrive_rows observed_at ((row, encoded) ∷ rs) table =
    if not (is_exhausted row.state)
    then (redrive_rows observed_at rs table >>= λ rest. ok (rest.0, rest.1, suc rest.2))
    else (redrive_row observed_at row encoded >>= λ saved.
        redrive_rows observed_at rs (store saved table) >>= λ rest. ok (rest.0, suc rest.1, rest.2))

unfoldable pub redrive_event_deliveries :
    Wire → List ℕ → List ℕ → Bool → ℕ → Table → Result (Table × RedriveReport)
redrive_event_deliveries w delivery_ids event_ids confirm observed_at table = do
  ensure (ltb 0 (length (delivery_ids ++ event_ids))) validation
  rows ← gather w delivery_ids event_ids table (delivery_ids ++ event_ids) []
  rebuilt ← rebuild_all w rows
  done ← if confirm then redrive_rows observed_at rebuilt table else ok (table, 0, 0)
  ok (
    done.0,
    record {
      requested = length rows;
      validated = length rows;
      redriven = done.1;
      skipped = done.2;
    },
  )
