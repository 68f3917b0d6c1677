-- ===== src/Intents/Replay.antt =====
-- An intent that is still stored may be sent again.
use allies_foundry.Base.{
  ℕ, ◌+◌, ◌≡◌, refl, sym, subst, find_first-holds, find_first-appended, ◌∙◌, true, ◌&&◌, Option,
  none, some, is_some, ltb, leb, List, ◌==◌, arith, inl, inr, Bool-cases, if◌then◌else◌, find_first,
  update_where, find_first-update_where, ok, ensure, conflict, not_found, idempotency_conflict,
  Ensures, Ensures-ok, Ensures-bind, Ensures-ensure, Ensures-or_raise, Ensures-refuse,
}
use allies_foundry.Models.{seconds}
use allies_foundry.Events.Appended.{is_some-false}
use allies_foundry.Intents.Requests.{
  Power, Waked, RuntimeIntent, RuntimeIntentType, Tables, WakeSettings, RuntimeIntentReceipt,
  same_type, find_intent, find_workspace, new_intent, create_intent, replay_intent, answer_intent,
  accept_intent, request_runtime_intent,
}

same_type_refl : (t : RuntimeIntentType) → same_type t t ≡ true
unfolding same_type
same_type_refl RuntimeIntentType.composing_started = refl
same_type_refl RuntimeIntentType.ally_creation_started = refl

module _ (k key : ℕ) (type : RuntimeIntentType) where
  -- An intent that a workspace was answered.
  record Kept (done : Tables × RuntimeIntentReceipt) : Type 0 where
    row : Waked
    intent : RuntimeIntent
    row_found : find_workspace k done.0 ≡ some row
    intent_found : find_intent row.workspace.id key done.0 ≡ some intent
    typed : same_type intent.intent_type type ≡ true
    status : done.1.status ≡ intent.outcome
    operation : done.1.operation_id ≡ intent.coalesced_operation_id

  replay-Kept :
      (row : Waked) (i : RuntimeIntent) (s : Tables)
      → find_workspace k s ≡ some row
      → find_intent row.workspace.id key s ≡ some i
      → Ensures Kept (replay_intent i type s)
  unfolding replay_intent
  replay-Kept row i s w f =
      Ensures-ensure Kept (same_type i.intent_type type) idempotency_conflict _ λ typed. record {
        row = row;
        intent = i;
        row_found = w;
        intent_found = f;
        typed = typed;
        status = refl;
        operation = refl;
      }

  -- The workspace is found after its wake was saved.
  saved_row :
      (j : ℕ) (power : Power) (row : Waked) (rows : List Waked)
      → find_first (λ w. w.workspace.id == k) rows ≡ some row
      → (saved : Waked) × (find_first
            (λ w. w.workspace.id == k)
            (update_where (λ w. w.workspace.id == j) (λ w. record w { power = power }) rows)
          ≡ some saved)
        × (saved.workspace ≡ row.workspace)
  saved_row j power row rows e = elim (Bool-cases (k == j)) [
    | inl c ↦ (
      record row { power = power },
      find_first-update_where (λ (w : Waked). w.workspace.id) k j (λ w. record w { power = power })
            rows (λ w. refl)
          ∙ rw (c, e) refl,
      refl,
    )
    | inr c ↦ (
      row,
      find_first-update_where (λ (w : Waked). w.workspace.id) k j (λ w. record w { power = power })
            rows (λ w. refl)
          ∙ rw (c, e) refl,
      refl,
    )
  ]

  create-Kept :
      (row : Waked) (i : RuntimeIntent) (power : Power) (s : Tables)
      → find_workspace k s ≡ some row
      → i.workspace_id ≡ row.workspace.id
      → i.idempotency_key ≡ key
      → i.intent_type ≡ type
      → Ensures Kept (create_intent i power s)
  unfolding create_intent
  create-Kept row i power s w e f t =
      let saved = saved_row i.workspace_id power row s.workspaces w in
      Ensures-refuse Kept (is_some (find_intent i.workspace_id i.idempotency_key s)) conflict _
        λ absent.
          Ensures-bind Kept
            (ensure (ltb i.received_at i.expires_at && leb i.expires_at i.delete_after) conflict) _
            λ _. record {
              row = saved.0;
              intent = i;
              row_found = saved.1;
              intent_found =
                  rw (saved.2, sym e, sym f)
                    (find_first-appended
                      (λ (x : RuntimeIntent).
                        x.workspace_id == i.workspace_id && x.idempotency_key == i.idempotency_key)
                      i s.intents (is_some-false _ absent) (ground arith));
              typed = rw t (same_type_refl type);
              status = refl;
              operation = refl;
            }

  request-Kept :
      (settings : WakeSettings) (fresh now received_at : ℕ) (s : Tables)
      → Ensures Kept (request_runtime_intent settings fresh now k key type received_at s)
  unfolding request_runtime_intent accept_intent
  request-Kept settings fresh now received_at s =
      Ensures-or_raise Kept (find_workspace k s) not_found _
        λ row found. either row found (find_intent row.workspace.id key s) refl
    where
      either :
          (row : Waked)
          → find_workspace k s ≡ some row
          → (o : Option RuntimeIntent) → find_intent row.workspace.id key s ≡ o
          → Ensures Kept (elim o [
            | none ↦ accept_intent settings fresh now key type received_at row s
            | some i ↦ replay_intent i type s
          ])
      either row found (some i) e = replay-Kept row i s found e
      either row found none e =
          let skewed = ltb (now + seconds 5) received_at in
          let received = if skewed then now else received_at in
          Ensures-bind Kept
            (answer_intent settings fresh received now skewed row.workspace row.power s.intents) _
            λ answer.
              create-Kept row (new_intent settings row key type received answer) answer.power s
                found refl refl refl

  answers_again :
      (settings : WakeSettings) (fresh now received_at : ℕ) (u : Tables) (row : Waked)
      (intent : RuntimeIntent) (receipt : RuntimeIntentReceipt)
      → find_workspace k u ≡ some row
      → find_intent row.workspace.id key u ≡ some intent
      → same_type intent.intent_type type ≡ true
      → receipt.status ≡ intent.outcome
      → receipt.operation_id ≡ intent.coalesced_operation_id
      → request_runtime_intent settings fresh now k key type received_at u
        ≡ ok (u, record receipt { replayed = true })
  unfolding request_runtime_intent replay_intent
  answers_again settings fresh now received_at u row intent receipt found there typed status
        operation =
      let found_again : (elim (find_intent row.workspace.id key u) [
        | none ↦ accept_intent settings fresh now key type received_at row u
        | some i ↦ replay_intent i type u
      ])
          ≡ ok (u, record receipt { replayed = true }) =
        rw (there, typed, status, operation) refl in
      rw found found_again

  -- The workspace that is found is the one that was asked for.
  found_id : (row : Waked) (s : Tables) → find_workspace k s ≡ some row → row.workspace.id ≡ k
  found_id row s e =
      let hit = find_first-holds (λ (w : Waked). w.workspace.id == k) row s.workspaces e in
      ground (arith, hit)

  -- An intent that was answered is answered with the same outcome and the same operation when it is
  -- sent again under its key, with any time of receipt, and nothing is written. The conditions are
  -- that the workspace is still there, whatever was written to it, and that the intent is found as it
  -- was stored: that it was not deleted, and its outcome not changed, since.
  pub replayed_intent :
      (settings later_settings : WakeSettings) (fresh now received_at : ℕ)
      (later_fresh later later_received : ℕ) (s t u : Tables) (row : Waked)
      (receipt : RuntimeIntentReceipt)
      → request_runtime_intent settings fresh now k key type received_at s ≡ ok (t, receipt)
      → find_workspace k u ≡ some row
      → find_intent k key u ≡ find_intent k key t
      → request_runtime_intent later_settings later_fresh later k key type later_received u
        ≡ ok (u, record receipt { replayed = true })
  replayed_intent settings later_settings fresh now received_at later_fresh later later_received s t
        u row receipt e found same =
      let kept : Kept (t, receipt) =
        Ensures-ok Kept _ (request-Kept settings fresh now received_at s) e in
      let there : find_intent k key u ≡ some kept.intent =
        same
        ∙ subst (λ j. find_intent j key t ≡ some kept.intent) (found_id kept.row t kept.row_found)
            kept.intent_found in
      answers_again later_settings later_fresh later later_received u row kept.intent receipt found
        (subst (λ j. find_intent j key u ≡ some kept.intent) (sym (found_id row u found)) there)
        kept.typed kept.status kept.operation
