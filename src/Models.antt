-- ===== src/Models.antt =====
-- The rows that leases, attempts and approvals work on, and the store that holds their tables
-- (backend/runtime/models.py). Identifiers, references and digests are compared for equality only
-- and stand as opaque numbers; times are microseconds. Columns that no service of this library
-- reads or writes are left out, and so is `updated_at`.
use allies_foundry.Base.{ℕ, String, Bool, true, false, Option, List, ◌*◌}
use allies_foundry.Delivery.Row.{Row}

pub data ExecutionStatus : Type 0 where
  queued running succeeded failed cancelled unknown : ExecutionStatus

pub data AttemptStatus : Type 0 where
  queued leased running approval_waiting succeeded failed cancelled unknown : AttemptStatus

pub data LeaseState : Type 0 where
  active stopping released fenced : LeaseState

pub data ApprovalRequestStatus : Type 0 where
  pending decision_recorded applied expired cancelled outcome_unknown : ApprovalRequestStatus

pub data RuntimeProfileLifecycleState : Type 0 where
  pending active cleanup_pending deprovisioned repair_required : RuntimeProfileLifecycleState

pub data WorkspaceProvisioningKind : Type 0 where
  ensure replace : WorkspaceProvisioningKind

pub data WorkspaceProvisioningPhase : Type 0 where
  idle app_ready volume_ready old_machine_stopped old_machine_destroyed : WorkspaceProvisioningPhase
  machine_created machine_started healthy failed : WorkspaceProvisioningPhase

pub data RoutineRunStatus : Type 0 where
  queued working approval_waiting succeeded failed cancelled expired : RoutineRunStatus

pub data RoutineApprovalStatus : Type 0 where
  pending authorizing rejected expired cancelled : RoutineApprovalStatus

pub data Decision : Type 0 where
  approve reject : Decision

pub data Outcome : Type 0 where
  approved rejected expired cancelled : Outcome

-- A text that is blank where there is none stands as an option. `routine_admission` is the flag of
-- that name in `release_target`, `release_digest` the digest of the images that this names.
pub record Workspace : Type 0 where
  pub id : ℕ
  pub tenant_ref : ℕ
  pub machine_generation : ℕ
  pub provisioning_kind : Option WorkspaceProvisioningKind
  pub provisioning_phase : WorkspaceProvisioningPhase
  pub provisioning_source_generation : Option ℕ
  pub provisioning_target_generation : Option ℕ
  pub provisioning_previous_machine_ref : Option ℕ
  pub fly_app_ref : Option ℕ
  pub volume_ref : Option ℕ
  pub machine_ref : Option ℕ
  pub runtime_start_epoch : ℕ
  pub ready_generation : Option ℕ
  pub ready_start_epoch : Option ℕ
  pub ready_boot_id : Option ℕ
  pub ready_at : Option ℕ
  pub runtime_last_seen_at : Option ℕ
  pub routine_admission : Option Bool
  pub release_digest : Option ℕ

pub record RuntimeProfile : Type 0 where
  pub id : ℕ
  pub workspace_id : ℕ
  pub lifecycle_state : RuntimeProfileLifecycleState
  pub hermes_profile_key_version : ℕ
  pub materialized_generation : Option ℕ

pub record Execution : Type 0 where
  pub id : ℕ
  pub workspace_id : ℕ
  pub profile_id : ℕ
  pub source_kind : String
  pub status : ExecutionStatus
  pub cloud_workspace_id : Option ℕ
  pub cloud_ally_id : Option ℕ
  pub cloud_conversation_id : Option ℕ
  pub cloud_message_id : Option ℕ
  pub cloud_binding_id : Option ℕ

-- The JSON of a stop receipt.
pub record StoppedReceipt : Type 0 where
  pub state : LeaseState
  pub requeued : Bool
  pub reason : String

-- The JSON of a terminal receipt, and whether its `retryable` is the value True.
pub record TerminalBody : Type 0 where
  pub json : ℕ
  pub retryable : Bool

-- The JSON of a session receipt: its `session_id`, where this is a text.
pub record SessionReceipt : Type 0 where
  pub session_id : Option String

pub record Attempt : Type 0 where
  pub id : ℕ
  pub execution_id : ℕ
  pub number : ℕ
  pub status : AttemptStatus
  pub machine_generation : ℕ
  pub claim_id : Option ℕ
  pub claimed_at : Option ℕ
  pub terminal_request_digest : Option ℕ
  pub terminal_lease_digest : Option ℕ
  pub terminal_receipt : Option TerminalBody
  pub terminal_receipt_id : Option ℕ
  pub stopped_request_digest : Option ℕ
  pub stopped_lease_digest : Option ℕ
  pub stopped_receipt : Option StoppedReceipt
  pub session_request_digest : Option ℕ
  pub session_lease_digest : Option ℕ
  pub session_receipt : Option SessionReceipt

pub record Lease : Type 0 where
  pub id : ℕ
  pub attempt_id : ℕ
  pub profile_id : ℕ
  pub scope_key : ℕ
  pub token_digest : ℕ
  pub claim_id : Option ℕ
  pub expires_at : ℕ
  pub machine_generation : ℕ
  pub state : LeaseState
  pub current_acquisition : Option ℕ

pub record ApprovalRequest : Type 0 where
  pub id : ℕ
  pub workspace_id : ℕ
  pub profile_id : ℕ
  pub execution_id : ℕ
  pub attempt_id : ℕ
  pub generation : ℕ
  pub action_kind : String
  pub action_label : List ℕ
  pub action_preview : List ℕ
  pub expires_at : ℕ
  pub status : ApprovalRequestStatus
  pub decision : Option Decision
  pub decision_command_id : Option ℕ
  pub decision_idempotency_key : Option ℕ
  pub decision_fingerprint : String
  pub decided_at : Option ℕ
  pub acknowledgement_deadline_at : Option ℕ
  pub outcome : Option Outcome
  pub resolved_at : Option ℕ

-- The keys of a rich awaiting-action payload. The identity is that of a canonical UUID; the expiry is
-- none where it is no timestamp.
pub record RichApproval : Type 0 where
  pub approval_request_id : ℕ
  pub action_kind : String
  pub action_label : List ℕ
  pub action_preview : List ℕ
  pub expires_at : Option ℕ

-- What the services read of the JSON of an event: whether its only key is `action_kind`, the keys of
-- a rich request, or the keys of a resolution.
pub data Shape : Type 0 where
  plain other : Shape
  rich : RichApproval → Shape
  resolution : (approval_request_id : ℕ) → (outcome : String) → Shape

-- The JSON object of an event, with the digest and the length of its canonical bytes.
pub record Payload : Type 0 where
  pub digest : ℕ
  pub size : ℕ
  pub shape : Shape

pub record ExecutionEvent : Type 0 where
  pub id : ℕ
  pub attempt_id : ℕ
  pub event_id : ℕ
  pub stream_id : String
  pub sequence : ℕ
  pub event_type : String
  pub payload : Payload
  pub payload_digest : Option ℕ
  pub created_at : ℕ

pub record RoutineExecution : Type 0 where
  pub id : ℕ
  pub execution_id : ℕ
  pub workspace_id : ℕ
  pub routine_id : ℕ
  pub generation : ℕ
  pub status : RoutineRunStatus
  pub current_attempt_id : Option ℕ
  pub hermes_session_id : Option String

-- The receipts are opaque, but that of a session, which is read as its `session_id`.
pub record RoutineLeaseAcquisition : Type 0 where
  pub id : ℕ
  pub lease_id : ℕ
  pub ordinal : ℕ
  pub claim_id : ℕ
  pub token_digest : ℕ
  pub machine_generation : ℕ
  pub current : Bool
  pub retired_at : Option ℕ
  pub session_request_digest : Option ℕ
  pub stop_request_digest : Option ℕ
  pub terminal_request_digest : Option ℕ
  pub session_receipt : Option String
  pub stop_receipt : Option ℕ
  pub terminal_receipt : Option ℕ

-- The primary key is the profile.
pub record ConversationBinding : Type 0 where
  pub profile_id : ℕ
  pub cloud_conversation_ref : String
  pub hermes_session_id : Option String

pub record RoutineApprovalAction : Type 0 where
  pub id : ℕ
  pub routine_execution_id : ℕ
  pub status : RoutineApprovalStatus

pub record Store : Type 0 where
  pub workspaces : List Workspace
  pub profiles : List RuntimeProfile
  pub executions : List Execution
  pub attempts : List Attempt
  pub leases : List Lease
  pub approvals : List ApprovalRequest
  pub events : List ExecutionEvent
  pub routines : List RoutineExecution
  pub acquisitions : List RoutineLeaseAcquisition
  pub actions : List RoutineApprovalAction
  pub bindings : List ConversationBinding
  pub outbox : List Row

-- The credential of a runtime Machine (backend/runtime/services/runtime_auth.py).
pub record RuntimeContext : Type 0 where
  pub workspace_id : ℕ
  pub machine_generation : ℕ

abbrev pub seconds : ℕ → ℕ
seconds n = n * 1000000

-- `state in (LeaseState.ACTIVE, LeaseState.STOPPING)`.
abbrev pub is_unresolved : LeaseState → Bool
is_unresolved LeaseState.active = true
is_unresolved LeaseState.stopping = true
is_unresolved _ = false

abbrev pub is_active : LeaseState → Bool
is_active LeaseState.active = true
is_active _ = false

-- The statuses QUEUED, LEASED and RUNNING.
abbrev pub is_live : AttemptStatus → Bool
is_live AttemptStatus.queued = true
is_live AttemptStatus.leased = true
is_live AttemptStatus.running = true
is_live _ = false

-- The statuses SUCCEEDED, FAILED, CANCELLED and UNKNOWN.
abbrev pub is_ended : AttemptStatus → Bool
is_ended AttemptStatus.succeeded = true
is_ended AttemptStatus.failed = true
is_ended AttemptStatus.cancelled = true
is_ended AttemptStatus.unknown = true
is_ended _ = false

-- `profile_allows_runtime_write` and `profile_allows_stop` of backend/runtime/services/profiles.py.
abbrev pub profile_allows_runtime_write : RuntimeProfile → Bool
profile_allows_runtime_write p = elim p.lifecycle_state [
  | RuntimeProfileLifecycleState.active ↦ true
  | _ ↦ false
]

abbrev pub profile_allows_stop : RuntimeProfile → Bool
profile_allows_stop p = elim p.lifecycle_state [
  | RuntimeProfileLifecycleState.active ↦ true
  | RuntimeProfileLifecycleState.cleanup_pending ↦ true
  | _ ↦ false
]
