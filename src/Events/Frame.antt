-- ===== src/Events/Frame.antt =====
-- What the append of an event leaves alone: it writes events, approval requests and rows of the
-- outbox.
use allies_foundry.Base.{
  ℕ, ◌+◌, ◌≡◌, refl, sym, subst, List, ◌∷◌, ◌∙◌, ◌&&◌, ◌==◌, ltb, Option, none, some, is_some,
  find_first, ok, ◌>>=◌, ensure, refuse, validation, conflict, Ensures, Ensures-map, Ensures-bind,
  Ensures->>=,
}
use allies_foundry.Models.{Store, Attempt, Lease, ApprovalRequest, ExecutionEvent, is_unresolved}
use allies_foundry.Delivery.Row.{Row}
use allies_foundry.Delivery.Repair.{Wire}
use allies_foundry.Events.Append.{
  Append, Fresh, append_event_once, find_event, latest_sequence, with_digest, save_event, enqueue,
  max_terminal_sequence,
}
use allies_foundry.Events.Effects.{IsQueued, enqueue-IsQueued}
use allies_foundry.Events.Expiry.{
  Expiry, append_lease_expired_failure, replay_failure, insert_failure, same_failure, failure_event,
}
use allies_foundry.Events.Appended.{Appended, replayed, inserted, append-Appended}

-- These tables stay as they were.
pub record IsAppend (s t : Store) : Type 0 where
  pub workspaces : t.workspaces ≡ s.workspaces
  pub profiles : t.profiles ≡ s.profiles
  pub executions : t.executions ≡ s.executions
  pub attempts : t.attempts ≡ s.attempts
  pub leases : t.leases ≡ s.leases
  pub routines : t.routines ≡ s.routines

pub IsAppend-writes :
    (s : Store) (approvals : List ApprovalRequest) (events : List ExecutionEvent)
    (outbox : List Row)
    → IsAppend s (record s { approvals = approvals; events = events; outbox = outbox })
IsAppend-writes s approvals events outbox = record {
  workspaces = refl;
  profiles = refl;
  executions = refl;
  attempts = refl;
  leases = refl;
  routines = refl;
}

pub IsAppend-refl : (s : Store) → IsAppend s s
IsAppend-refl s = IsAppend-writes s s.approvals s.events s.outbox

IsAppend-trans : (s t u : Store) → IsAppend s t → IsAppend t u → IsAppend s u
IsAppend-trans s t u h k = record {
  workspaces = k.workspaces ∙ h.workspaces;
  profiles = k.profiles ∙ h.profiles;
  executions = k.executions ∙ h.executions;
  attempts = k.attempts ∙ h.attempts;
  leases = k.leases ∙ h.leases;
  routines = k.routines ∙ h.routines;
}

abbrev pub Appends {ℓ} : {B : Type ℓ} → Store → Store × B → Type 0
Appends s done = IsAppend s done.0

Appended-Appends :
    (w : Store → Wire) (ids : Fresh) (call : Append) (now : ℕ) (s : Store)
    (done : Store × ExecutionEvent)
    → Appended w ids call now s done
    → Appends s done
Appended-Appends w ids call now s done (replayed h) =
    subst (IsAppend s) (sym h.store) (IsAppend-writes s s.approvals _ h.outbox)
Appended-Appends w ids call now s done (inserted h) =
    subst (IsAppend s) (sym h.store) (IsAppend-writes s h.approvals _ h.outbox)

pub append-Appends :
    (w : Store → Wire) (ids : Fresh) (call : Append) (now : ℕ) (s : Store)
    → Ensures (Appends s) (append_event_once w ids call now s)
append-Appends w ids call now s =
    Ensures-map (Appended w ids call now s) (Appends s) (append_event_once w ids call now s)
      (Appended-Appends w ids call now s) (append-Appended w ids call now s)

queued-Appends :
    (w : Store → Wire) (delivery : ℕ) (e : ExecutionEvent) (s : Store)
    (events : List ExecutionEvent)
    → Ensures (Appends s) (enqueue w delivery e (record s { events = events }) >>= λ t. ok (t, e))
queued-Appends w delivery e s events =
    let u = record s { events = events } in
    Ensures->>= (IsQueued w delivery e u) (Appends s) (enqueue w delivery e u) _
      (enqueue-IsQueued w delivery e u)
      λ t h. subst (IsAppend s) (sym h.3) (IsAppend-writes s s.approvals events h.0)

replayed_failure :
    (w : Store → Wire) (x : Expiry) (ids : Fresh) (attempt : Attempt) (e : ExecutionEvent)
    (s : Store)
    → Ensures (Appends s) (replay_failure w x ids attempt e s)
unfolding replay_failure
replayed_failure w x ids attempt e s =
    Ensures-bind (Appends s) (ensure (same_failure x e attempt) conflict) _
      λ _. queued-Appends w ids.delivery (with_digest e) s (save_event (with_digest e) s).events

inserted_failure :
    (w : Store → Wire) (x : Expiry) (ids : Fresh) (attempt : Attempt) (now : ℕ) (s : Store)
    → Ensures (Appends s) (insert_failure w x ids attempt now s)
unfolding insert_failure
inserted_failure w x ids attempt now s =
    let sequence = latest_sequence attempt.id s.events + 1 in
    let e = failure_event x ids attempt sequence now in
    Ensures-bind (Appends s) (refuse (ltb max_terminal_sequence sequence) conflict) _ λ _.
      Ensures-bind (Appends s)
        (refuse (is_some (find_first (λ y. y.id == ids.event) s.events)) conflict) _
        λ _. queued-Appends w ids.delivery e s (e ∷ s.events)

-- The server's own failure leaves the same tables alone.
pub failure-Appends :
    (w : Store → Wire) (x : Expiry) (ids : Fresh) (attempt : Attempt) (lease : Lease) (now : ℕ)
    (s : Store)
    → Ensures (Appends s) (append_lease_expired_failure w x ids attempt lease now s)
unfolding append_lease_expired_failure
failure-Appends w x ids attempt lease now s =
    Ensures-bind (Appends s)
      (ensure (lease.attempt_id == attempt.id && is_unresolved lease.state) validation) _
      λ _.
        Ensures-bind (Appends s) (refuse (ltb now lease.expires_at) validation) _
          λ _. either (find_event attempt.id (x.event_id attempt.id) s)
  where
    either :
        (o : Option ExecutionEvent)
        → Ensures (Appends s) (elim o [
          | some existing ↦ replay_failure w x ids attempt existing s
          | none ↦ insert_failure w x ids attempt now s
        ])
    either none = inserted_failure w x ids attempt now s
    either (some e) = replayed_failure w x ids attempt e s
