-- ===== src/Events/Effects.antt =====
-- What the approval effects of an event and its row of the outbox write: the requests, and the
-- outbox.
use allies_foundry.Base.{
  ℕ, ◌≡◌, refl, String, List, ◌∷◌, ◌&&◌, not, Option, none, some, ◌==◌, text_eq, inl, inr,
  Bool-cases, find_first, or_raise, ensure, ok, validation, conflict, fenced, does_not_exist,
  Ensures, Ensures-bind, Ensures->>=, Ensures-intro,
}
use allies_foundry.Models.{
  Store, Attempt, ApprovalRequest, ExecutionEvent, Execution, Shape, plain, rich, resolution, other,
}
use allies_foundry.Delivery.Row.{Row}
use allies_foundry.Delivery.Repair.{Wire}
use allies_foundry.Delivery.Outbox.{enqueue_event_delivery}
use allies_foundry.Approvals.Requests.{reconcile_locked, parse_outcome, apply_reconciled}
use allies_foundry.Approvals.Service.{
  find_workspace, find_execution, find_approval, save_approval, apply_approval_resolution,
}
use allies_foundry.Approvals.Creation.{
  record_approval_request_from_event, check_content, existing_or_created, ensure_request_binding,
  new_request,
}
use allies_foundry.Events.Append.{seen, Append, approval_effect, resolve, is_plain, enqueue}

-- Only the approval requests may differ.
abbrev pub IsEffect : Store → Store → Type 0
IsEffect s t = (approvals : List ApprovalRequest) × (t ≡ record s { approvals = approvals })

abbrev Effects : Store → Store × ApprovalRequest → Type 0
Effects s done = IsEffect s done.0

resolution-Effects :
    (attempt_id request_id : ℕ) (text : String) (now later : ℕ) (s : Store)
    → Ensures (Effects s) (apply_approval_resolution attempt_id request_id text now later s)
unfolding apply_approval_resolution
resolution-Effects attempt_id request_id text now later s =
    Ensures-bind (Effects s) (parse_outcome text) _ λ outcome.
      Ensures-bind (Effects s) (or_raise (find_approval request_id attempt_id s) conflict) _ λ a.
        Ensures-bind (Effects s) (apply_reconciled (reconcile_locked a now) outcome later) _
          λ b. ((save_approval b s).approvals, refl)

created-Effects :
    (attempt : Attempt) (shape : Shape) (now : ℕ) (s : Store)
    → Ensures (Effects s) (record_approval_request_from_event attempt shape now s)
unfolding record_approval_request_from_event
created-Effects attempt plain now s = tt
created-Effects attempt other now s = tt
created-Effects attempt (resolution k o) now s = tt
created-Effects attempt (rich r) now s =
    Ensures-bind (Effects s) (check_content r now) _ λ expires_at.
      Ensures-bind (Effects s) (or_raise (find_execution attempt.execution_id s) does_not_exist) _
        λ execution.
          Ensures-bind (Effects s)
            (or_raise (find_workspace execution.workspace_id s) does_not_exist) _
            λ workspace.
              Ensures-bind (Effects s)
                (or_raise (find_first (λ p. p.id == execution.profile_id) s.profiles)
                  does_not_exist)
                _
                λ profile.
                  Ensures-bind (Effects s)
                    (ensure (execution.workspace_id == profile.workspace_id) validation) _
                    λ _.
                      Ensures-bind (Effects s)
                        (ensure (attempt.machine_generation == workspace.machine_generation) fenced)
                        _
                        λ _.
                          either (find_first (λ a. a.id == r.approval_request_id) s.approvals)
                            execution expires_at
  where
    either :
        (o : Option ApprovalRequest) (execution : Execution) (expires_at : ℕ)
        → Ensures (Effects s) (existing_or_created attempt execution r expires_at s o)
    either none execution expires_at =
        (new_request attempt execution r expires_at ∷ s.approvals, refl)
    either (some a) execution expires_at =
        Ensures-bind (Effects s) (ensure_request_binding a attempt execution r expires_at) _
          λ _. (s.approvals, refl)

resolve-IsEffect :
    (attempt : Attempt) (shape : Shape) (now : ℕ) (s : Store)
    → Ensures (IsEffect s) (resolve attempt shape now s)
unfolding resolve
resolve-IsEffect attempt plain now s = tt
resolve-IsEffect attempt other now s = tt
resolve-IsEffect attempt (rich r) now s = tt
resolve-IsEffect attempt (resolution k o) now s =
    Ensures->>= (Effects s) (IsEffect s) (apply_approval_resolution attempt.id k o now now s) _
      (resolution-Effects attempt.id k o now now s) λ done h. h

pub approval_effect-IsEffect :
    (attempt : Attempt) (call : Append) (now : ℕ) (s : Store)
    → Ensures (IsEffect s) (approval_effect attempt call now s)
unfolding approval_effect
approval_effect-IsEffect attempt call now s =
    elim (Bool-cases
      (text_eq call.event_type "execution.awaiting_action" && not (is_plain call.payload.shape))) [
        | inl c ↦ rw c (
            Ensures->>= (Effects s) (IsEffect s)
              (record_approval_request_from_event attempt call.payload.shape now s) _
              (created-Effects attempt call.payload.shape now s) λ done h. h)
        | inr c ↦ elim (Bool-cases (text_eq call.event_type "execution.approval_resolved")) [
          | inl d ↦ rw (c, d) (resolve-IsEffect attempt call.payload.shape now s)
          | inr d ↦ rw (c, d) (s.approvals, refl)
        ]
      ]

-- An event has been put into the outbox.
abbrev pub IsQueued : (Store → Wire) → ℕ → ExecutionEvent → Store → Store → Type 0
IsQueued w delivery e s t =
    (outbox : List Row) × (row : Option Row) × (enqueue_event_delivery (seen w s) e.id delivery
        e.created_at s.outbox
      ≡ ok (outbox, row))
    × (t ≡ record s { outbox = outbox })

pub enqueue-IsQueued :
    (w : Store → Wire) (delivery : ℕ) (e : ExecutionEvent) (s : Store)
    → Ensures (IsQueued w delivery e s) (enqueue w delivery e s)
unfolding enqueue
enqueue-IsQueued w delivery e s =
    Ensures->>=
      (λ done. enqueue_event_delivery (seen w s) e.id delivery e.created_at s.outbox ≡ ok done)
      (IsQueued w delivery e s)
      (enqueue_event_delivery (seen w s) e.id delivery e.created_at s.outbox) _
      (Ensures-intro _ (enqueue_event_delivery (seen w s) e.id delivery e.created_at s.outbox)
        (λ a h. h))
      λ done h. (done.0, done.1, h, refl)
