-- ===== src/Approvals/Creation.antt =====
-- `record_approval_request_from_event` of backend/runtime/services/approvals.py: the request that a
-- rich awaiting-action event asks for.
use allies_foundry.Base.{
  ℕ, ◌+◌, ◌*◌, String, Bool, ◌&&◌, ◌||◌, not, Option, none, some, List, [], ◌∷◌, ltb, leb, ◌==◌,
  if◌then◌else◌, bytes_eq, text_eq, length, member, find_first, Result, ok, err, ◌>>=◌, ◌>>◌,
  ensure, refuse, or_raise, validation, conflict, fenced, does_not_exist,
}
use allies_foundry.Models.{
  Store, Execution, Attempt, ApprovalRequest, ApprovalRequestStatus, Shape, rich, RichApproval,
  seconds,
}
use allies_foundry.Approvals.Service.{find_workspace, find_execution}

-- `action_kind in APPROVAL_ACTION_KINDS`.
unfoldable pub is_action_kind : String → Bool
is_action_kind kind =
    text_eq kind "terminal" || text_eq kind "execute_code" || text_eq kind "plugin_tool"

-- The length of a text in UTF-8, by its code points.
unfoldable pub utf8_length : List ℕ → ℕ
utf8_length [] = 0
utf8_length (c ∷ cs) =
    (if ltb c 0x80 then 1 else if ltb c 0x800 then 2 else if ltb c 0x1_0000 then 3 else 4)
    + utf8_length cs

-- The checks of the content; they end in the time of expiry.
unfoldable pub check_content : RichApproval → ℕ → Result ℕ
unfolding is_action_kind utf8_length member
check_content r now = do
  ensure (is_action_kind r.action_kind) validation
  ensure
      (leb 1 (length r.action_label)
        && leb (length r.action_label) 120
        && not (member 0 r.action_label))
      validation
  ensure
      (leb 1 (length r.action_preview)
        && not (member 0 r.action_preview)
        && leb (utf8_length r.action_preview) (16 * 1024))
      validation
  expires_at ← or_raise r.expires_at validation
  refuse (leb expires_at now || ltb (now + seconds 300) expires_at) validation
  ok expires_at

-- `_ensure_request_binding`.
unfoldable pub ensure_request_binding :
    ApprovalRequest → Attempt → Execution → RichApproval → ℕ → Result (Unit {0})
ensure_request_binding existing attempt execution r expires_at =
    ensure
      (existing.attempt_id == attempt.id
        && existing.execution_id == attempt.execution_id
        && existing.workspace_id == execution.workspace_id
        && existing.profile_id == execution.profile_id
        && existing.generation == attempt.machine_generation
        && text_eq existing.action_kind r.action_kind
        && bytes_eq existing.action_label r.action_label
        && bytes_eq existing.action_preview r.action_preview
        && existing.expires_at == expires_at)
      conflict

unfoldable pub new_request : Attempt → Execution → RichApproval → ℕ → ApprovalRequest
new_request attempt execution r expires_at = record {
  id = r.approval_request_id;
  workspace_id = execution.workspace_id;
  profile_id = execution.profile_id;
  execution_id = attempt.execution_id;
  attempt_id = attempt.id;
  generation = attempt.machine_generation;
  action_kind = r.action_kind;
  action_label = r.action_label;
  action_preview = r.action_preview;
  expires_at = expires_at;
  status = ApprovalRequestStatus.pending;
  decision = none;
  decision_command_id = none;
  decision_idempotency_key = none;
  decision_fingerprint = "";
  decided_at = none;
  acknowledgement_deadline_at = none;
  outcome = none;
  resolved_at = none;
}

-- The request of this identity, or a new one. The identity is the only unique key of a new row, so
-- the insertion after an unsuccessful search does not fail.
unfoldable pub existing_or_created :
    Attempt
    → Execution
    → RichApproval
    → ℕ
    → Store
    → Option ApprovalRequest
    → Result (Store × ApprovalRequest)
existing_or_created attempt execution r expires_at store (some existing) = do
  ensure_request_binding existing attempt execution r expires_at
  ok (store, existing)
existing_or_created attempt execution r expires_at store none =
    let a = new_request attempt execution r expires_at in
    ok (record store { approvals = a ∷ store.approvals }, a)

-- A payload that is not rich lacks keys, or has others.
unfoldable pub record_approval_request_from_event :
    Attempt → Shape → ℕ → Store → Result (Store × ApprovalRequest)
unfolding check_content existing_or_created
record_approval_request_from_event attempt (rich r) now store = do
  expires_at ← check_content r now
  execution ← or_raise (find_execution attempt.execution_id store) does_not_exist
  workspace ← or_raise (find_workspace execution.workspace_id store) does_not_exist
  profile ← or_raise (find_first (λ p. p.id == execution.profile_id) store.profiles) does_not_exist
  ensure (execution.workspace_id == profile.workspace_id) validation
  ensure (attempt.machine_generation == workspace.machine_generation) fenced
  existing_or_created attempt execution r expires_at store
      (find_first (λ a. a.id == r.approval_request_id) store.approvals)
record_approval_request_from_event attempt shape now store = err validation
